-- ===== src/Preprocessor/Inject/Isolation.antt =====
-- Which database a request gets, and who passes the guards, of pkg/server/preprocessor/preprocessor.go.
use skygear_server.Common.{
  String, ◌≡◌, ◌⊎◌, inl, inr, refl, ap, sym, ◌∙◌, true, false, Option, none, some, ◌==◌, eq_iff,
  arith, Bool-cases,
}
use skygear_server.Skydb.AuthInfo.{AuthInfo}
use skygear_server.Router.{
  Payload, Response, Step, Database, public_db, private_db, returned, panicked, has_master_key,
  text_at, status_ok,
}
use skygear_server.Preprocessor.Inject.{
  private_of, other_database, database_by, inject_database, is_own, or_public,
}

-- The databases that a user may be given without the master key.
abbrev pub IsOwn : Option AuthInfo → Option Database → Type 0
IsOwn auth_info db =
    (db ≡ some public_db)
    ⊎ ((user : AuthInfo) × (auth_info ≡ some user) × (db ≡ some (private_db user.id)))

abbrev database_of : Step → Option Database
database_of (returned s p r) = p.database
database_of (panicked r e) = none

private_of-IsOwn :
    (o : Option AuthInfo) (p : Payload) (r : Response) (p' : Payload) (r' : Response)
    → private_of o p r ≡ returned status_ok p' r'
    → IsOwn o p'.database
unfolding private_of
private_of-IsOwn none p r p' r' h = absurd (ground arith)
private_of-IsOwn (some user) p r p' r' h = inr (user, refl, ap database_of (sym h))

is_own-IsOwn :
    (o : Option AuthInfo) (id : String) (db : Option Database)
    → is_own o id ≡ true
    → db ≡ some (private_db id)
    → IsOwn o db
is_own-IsOwn none id db h e = absurd (cc)
is_own-IsOwn (some user) id db h e =
    inr (user, refl, e ∙ ap (λ x. some (private_db x)) ((eq_iff id user.id).0 h))

other_database-IsOwn :
    (id : String) (p : Payload) (r : Response) (p' : Payload) (r' : Response)
    → has_master_key p ≡ false
    → other_database id p r ≡ returned status_ok p' r'
    → IsOwn p.auth_info p'.database
unfolding other_database
other_database-IsOwn id p r p' r' m h = elim (Bool-cases (is_own p.auth_info id)) [
  | inl own ↦ is_own-IsOwn p.auth_info id p'.database own (ground arith)
  | inr own ↦ absurd (ground arith)
]

database_by-IsOwn :
    (id : String) (p : Payload) (r : Response) (p' : Payload) (r' : Response)
    → has_master_key p ≡ false
    → database_by id p r ≡ returned status_ok p' r'
    → IsOwn p.auth_info p'.database
unfolding database_by
database_by-IsOwn id p r p' r' m h = elim (Bool-cases (id == "_private")) [
  | inl e ↦ private_of-IsOwn p.auth_info p r p' r' (ground arith)
  | inr e ↦ elim (Bool-cases (id == "_public")) [
    | inl f ↦ inl (ground arith)
    | inr f ↦ elim (Bool-cases (id == "_union")) [
      | inl g ↦ absurd (ground arith)
      | inr g ↦ other_database-IsOwn id p r p' r' m (ground arith)
    ]
  ]
]

-- Without the master key, a request that `InjectDatabase` lets pass has the public database or the
-- private database of its own user.
pub inject_database-IsOwn :
    (p : Payload) (r : Response) (p' : Payload) (r' : Response)
    → has_master_key p ≡ false
    → inject_database p r ≡ returned status_ok p' r'
    → (p'.database ≡ some public_db)
      ⊎ ((user : AuthInfo) × (p.auth_info ≡ some user) × (p'.database ≡ some (private_db user.id)))
unfolding inject_database
inject_database-IsOwn p r p' r' m h =
    database_by-IsOwn (or_public (text_at "database_id" p.contents)) p r p' r' m h
