-- ===== src/Meta/Store/Cache.antt =====
-- The cache of Authenticate.
use chronus.Base.{
  ◌≡◌, refl, ap, ◌∙◌, true, List, [], ◌∷◌, none, some, String, ok, err, arith, eq_iff,
  if◌then◌else◌, Bool-cases, inl, inr,
}
use chronus.Meta.Store.{
  Client, MetaData, Influxdb, UserInfo, AuthUser, authenticate_failed, replace_data,
}
use chronus.Meta.Store.Users.{user, find_user, cached, forget, hits_cache, authenticate, remember}

cached-forget :
    (name : String) (xs : List (String × AuthUser)) → cached name (forget name xs) ≡ none
unfolding cached forget
cached-forget name [] = refl
cached-forget name (x ∷ xs) = ground (arith, cached-forget name xs)

module _ {X E DB P : Type 0} (influx : Influxdb X E DB P) where
  -- Authenticate for a user that is there.
  authenticate_user :
      (name password salt : String) (u : UserInfo) (c : Client X)
      → find_user name (influx.users c.cache_data.rest) ≡ some u
      → authenticate influx name password salt c ≡ (
          if hits_cache influx password (cached name c.auth_cache)
          then (ok u, c)
          else if influx.same_password u.hash password
          then (ok u, remember influx name password salt u c)
          else (err authenticate_failed, c))
  unfolding authenticate user
  authenticate_user name password salt u c known = rw (authenticate, user, known) refl

  hits_cache-remember :
      (name password salt : String) (u : UserInfo) (c : Client X)
      → hits_cache influx password (cached name (remember influx name password salt u c).auth_cache)
        ≡ true
  unfolding hits_cache cached remember
  hits_cache-remember name password salt u c = ground (
    arith,
    eq_iff name name,
    eq_iff (influx.hash_with_salt salt password) (influx.hash_with_salt salt password),
  )

  -- A password that was accepted is in the cache.
  hits_cache-authenticate :
      (name password salt : String) (u : UserInfo) (c : Client X)
      → find_user name (influx.users c.cache_data.rest) ≡ some u
      → influx.same_password u.hash password ≡ true
      → hits_cache influx password
          (cached name (authenticate influx name password salt c).1.auth_cache)
        ≡ true
  hits_cache-authenticate name password salt u c known right =
      elim (Bool-cases (hits_cache influx password (cached name c.auth_cache))) [
        | inl hit ↦ rw (authenticate_user name password salt u c known, hit) hit
        | inr miss ↦
            rw (authenticate_user name password salt u c known, miss, right)
              (hits_cache-remember name password salt u c)
      ]

  -- After ReplaceData, a password that was accepted before goes on being accepted for a user of
  -- that name, whatever hash of a password the new metadata have for the user.
  pub authenticate-replace_data :
      (name password salt salt' : String) (u u' : UserInfo) (c : Client X) (d : MetaData X)
      → find_user name (influx.users c.cache_data.rest) ≡ some u
      → influx.same_password u.hash password ≡ true
      → find_user name (influx.users d.rest) ≡ some u'
      → (authenticate influx name password salt'
          (replace_data d (authenticate influx name password salt c).1)).0
        ≡ ok u'
  unfolding replace_data
  authenticate-replace_data name password salt salt' u u' c d known right there =
      let c' = replace_data d (authenticate influx name password salt c).1 in
      let hit : hits_cache influx password (cached name c'.auth_cache) ≡ true =
        hits_cache-authenticate name password salt u c known right in
      ap (λ r. r.0) (authenticate_user name password salt' u' c' there) ∙ rw hit refl

  -- An Authenticate that compares a password before UpdateUser, and puts it into the cache after it,
  -- makes it accepted, whatever the new hash is. `c` is the client that UpdateUser leaves.
  pub authenticate-remember :
      (name password salt salt' : String) (u u' : UserInfo) (c : Client X)
      → find_user name (influx.users c.cache_data.rest) ≡ some u'
      → (authenticate influx name password salt' (remember influx name password salt u c)).0 ≡ ok u'
  unfolding remember
  authenticate-remember name password salt salt' u u' c there =
      let c' = remember influx name password salt u c in
      ap (λ r. r.0) (authenticate_user name password salt' u' c' there)
      ∙ rw (hits_cache-remember name password salt u c) refl
