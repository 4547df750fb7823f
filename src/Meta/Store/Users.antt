-- ===== src/Meta/Store/Users.antt =====
-- services/meta/store.go: the users of Client, CreateUser, UpdateUser, DropUser and Authenticate
-- with its cache of passwords.
use chronus.Base.{
  ◌≡◌, refl, Bool, false, ◌&&◌, not, List, [], ◌∷◌, Option, none, some, String, Outcome, ok, err,
  panic, ◌==ₛ◌, if◌then◌else◌,
}
use chronus.Meta.Store.{
  Client, Error, Influxdb, UserInfo, AuthUser, user_not_found, user_exists, authenticate_failed,
  update,
}

-- The entry of a user in the cache, and the cache without it.
unfoldable pub cached : String → List (String × AuthUser) → Option AuthUser
cached name [] = none
cached name (x ∷ xs) = let rest = cached name xs in if x.0 ==ₛ name then some x.1 else rest

unfoldable pub forget : String → List (String × AuthUser) → List (String × AuthUser)
forget name [] = []
forget name (x ∷ xs) = let rest = forget name xs in if x.0 ==ₛ name then rest else x ∷ rest

unfoldable pub find_user : String → List UserInfo → Option UserInfo
find_user name [] = none
find_user name (u ∷ us) = let rest = find_user name us in if u.name ==ₛ name then some u else rest

-- The user that the test `err != nil && u != nil` lets through: an error comes with no user.
unfoldable pub known_user : {E : Type 0} → Outcome (Error E) UserInfo → Option UserInfo
known_user (err e) = none
known_user (ok u) = none
known_user panic = none

-- So nobody is known.
pub known_user-none : {E : Type 0} (o : Outcome (Error E) UserInfo) → known_user o ≡ none
unfolding known_user
known_user-none (err e) = refl
known_user-none (ok u) = refl
known_user-none panic = refl

module _ {X E : Type 0} where
  -- UpdateUser and DropUser, which forget the user in the cache.
  unfoldable pub forget_result :
      String → Outcome (Error E) (Unit {0}) × Client X → Outcome (Error E) (Unit {0}) × Client X
  forget_result name (ok a, c) = (ok a, record c { auth_cache = forget name c.auth_cache })
  forget_result name (err e, c) = (err e, c)
  forget_result name (panic, c) = (panic, c)

module _ {X E DB P : Type 0} (influx : Influxdb X E DB P) where
  -- user, with its error.
  unfoldable pub user : String → Client X → Outcome (Error E) UserInfo
  user name c = elim (find_user name (influx.users c.cache_data.rest)) [
    | none ↦ err user_not_found
    | some u ↦ ok u
  ]

  unfoldable pub created_user :
      String → Outcome (Error E) (Unit {0}) × Client X → Outcome (Error E) UserInfo × Client X
  created_user name (ok _, c) = (user name c, c)
  created_user name (err e, c) = (err e, c)
  created_user name (panic, c) = (panic, c)

  unfoldable pub create_user :
      String → String → Bool → Client X → Outcome (Error E) UserInfo × Client X
  create_user name hashed admin c = elim (known_user (user name c)) [
    | some u ↦
        if (u.hash ==ₛ hashed) && (if admin then u.admin else not u.admin)
        then (ok u, c)
        else (err user_exists, c)
    | none ↦ created_user name (update (influx.create_user name hashed admin) c)
  ]

  unfoldable pub update_user : String → String → Client X → Outcome (Error E) (Unit {0}) × Client X
  update_user name hashed c = forget_result name (update (influx.update_user name hashed) c)

  unfoldable pub drop_user : String → Client X → Outcome (Error E) (Unit {0}) × Client X
  drop_user name c = forget_result name (update (influx.drop_user name) c)

  unfoldable pub hits_cache : String → Option AuthUser → Bool
  hits_cache password none = false
  hits_cache password (some a) = influx.hash_with_salt a.salt password ==ₛ a.hash

  -- The last step of Authenticate, under its own lock: the password is put into the cache.
  unfoldable pub remember : String → String → String → UserInfo → Client X → Client X
  remember name password salt u c = record c {
    auth_cache =
        (name, record { bhash = u.hash; salt = salt; hash = influx.hash_with_salt salt password })
        ∷ forget name c.auth_cache;
  }

  -- Authenticate where nothing else happens between its steps (the user, the cache, the comparison and
  -- what is remembered), with the salt that is drawn for a new entry of the cache.
  unfoldable pub authenticate :
      String → String → String → Client X → Outcome (Error E) UserInfo × Client X
  authenticate name password salt c = elim (user name c) [
    | err e ↦ (err e, c)
    | panic ↦ (panic, c)
    | ok u ↦
        if hits_cache password (cached name c.auth_cache)
        then (ok u, c)
        else if influx.same_password u.hash password
        then (ok u, remember name password salt u c)
        else (err authenticate_failed, c)
  ]
