-- ===== src/Recordutil/Save/Stamped.antt =====
-- What the first loop of `RecordSaveHandler` of pkg/server/recordutil/recordutil.go makes of a record.
use skygear_server.Common.{
  ◌≡◌, sym, subst, ap, ◌∙◌, Bool, true, false, none, some, arith, Option-cases, inl, inr,
}
use skygear_server.Skydb.AuthInfo.{AuthInfo}
use skygear_server.Skydb.FieldAcl.{FieldAcl}
use skygear_server.Skydb.Record
use skygear_server.Skydb.Record.{Record}
use skygear_server.Skydb.RecordMap as ById
use skygear_server.Skydb.RecordMap.{lookup-insert_self}
use skygear_server.Skydb.Value.{Value, RecordId}
use skygear_server.Plugin.Hook.{Called}
use skygear_server.Recordutil.Fetch.{
  Lookup, found, not_found, broken, Fetched, fetch_or_create_record,
}
use skygear_server.Recordutil.Fetch.Found.{HasShape, shape_of_fetched}
use skygear_server.Recordutil.Modify.{Database, Conn, ModifyRequest}
use skygear_server.Recordutil.Save.{
  Fetching, initialized, scrubbed, merged, with_record, fetch_for_save,
}
use skygear_server.Recordutil.Save.Identity.{scrubbed-contents}

module _ {W : Type 0} (db : Database W) (conn : Conn W) (deep_equal : Value → Value → Bool)
    (req : ModifyRequest W) where
  -- The record carries the stored one's metadata, and the stored one is remembered.
  abbrev pub IsUpdate : Fetching → Record → Record → Type 0
  IsUpdate s stored out =
      (out.id ≡ stored.id)
      × (out.database_id ≡ stored.database_id)
      × (out.owner_id ≡ stored.owner_id)
      × (out.creator_id ≡ stored.creator_id)
      × (out.created_at ≡ stored.created_at)
      × (ById.lookup stored.id s.originals ≡ some (Record.copy stored))

  -- The record is new and belongs to the user.
  abbrev pub IsNew : AuthInfo → RecordId → Record → Type 0
  IsNew user id out =
      (out.id ≡ id)
      × (out.database_id ≡ db.id)
      × (out.owner_id ≡ user.id)
      × (out.creator_id ≡ user.id)
      × (out.created_at ≡ req.modify_at)

  abbrev pub IsStamped : AuthInfo → RecordId → Fetching → Record → Lookup → Type 0
  IsStamped user id s out (found stored) = IsUpdate s stored out
  IsStamped user id s out not_found = IsNew user id out
  IsStamped user id s out broken = ⊥

  -- The parts of a call that returned a record.
  abbrev Parts : FieldAcl → Fetching → Record → Fetched → Called Fetching → Type 0
  Parts acl s rec f c =
      (f.error ≡ none)
      × (r : Record) × (initialized db conn deep_equal req rec.id f ≡ some r)
      × (scrubbed_rec : Record) × (scrubbed_rec ≡ record rec { contents = scrubbed_rec.contents })
      × (merged db conn deep_equal req s f.created r (scrubbed_rec, none) ≡ some c)

  with_record-Parts :
      (acl : FieldAcl) (s : Fetching) (rec : Record) (f : Fetched) (c : Called Fetching)
      → with_record db conn deep_equal req acl s rec f ≡ some c
      → c.error ≡ none
      → Parts acl s rec f c
  unfolding with_record
  with_record-Parts acl s rec f c e ok = elim (Option-cases f.error) [
    | inr (x, p) ↦ absurd (ground (arith, e, p, ok))
    | inl p ↦ elim (Option-cases (initialized db conn deep_equal req rec.id f)) [
      | inl q ↦ absurd (ground (arith, e, p, q))
      | inr (r, q) ↦ elim (Option-cases (scrubbed db conn deep_equal req acl rec r)) [
        | inl t ↦ absurd (ground (arith, e, p, q, t))
        | inr ((rec', none), t) ↦ (
          p,
          r,
          q,
          rec',
          scrubbed-contents db conn deep_equal req acl rec r (rec', none) t,
          ground (arith, e, p, q, t),
        )
        | inr ((rec', some x), t) ↦ absurd (unfold merged in ground (arith, e, p, q, t, ok))
      ]
    ]
  ]

  -- The user that the request has, and what the merged record is.
  merged-user :
      (s : Fetching) (created : Bool) (r rec : Record) (c : Called Fetching)
      → merged db conn deep_equal req s created r (rec, none) ≡ some c
      → (user : AuthInfo) × (req.auth_info ≡ some user)
        × (c.outcome
            ≡ record (Record.apply r rec) { updated_at = req.modify_at; updater_id = user.id })
        × (created ≡ false → ById.lookup r.id c.state.originals ≡ some (Record.copy r))
  unfolding merged
  merged-user s created r rec c e = elim (Option-cases req.auth_info) [
    | inl p ↦ absurd (ground (arith, e, p))
    | inr (user, p) ↦ (
      user,
      p,
      ground (arith, e, p),
      λ old. ground (arith, e, p, old, lookup-insert_self r.id (Record.copy r) s.originals),
    )
  ]

  initialized-IsNew :
      (id : RecordId) (f : Fetched) (r : Record) (user : AuthInfo)
      → f.created ≡ true
      → req.auth_info ≡ some user
      → initialized db conn deep_equal req id f ≡ some r
      → IsNew user id r
  unfolding initialized
  initialized-IsNew id f r user new p e = ground (arith, e, p, new)

  initialized-old :
      (id : RecordId) (f : Fetched) (r : Record)
      → f.created ≡ false
      → initialized db conn deep_equal req id f ≡ some r
      → f.outcome ≡ r
  unfolding initialized
  initialized-old id f r old e = ground (arith, e, old)

  IsStamped-of_parts :
      (lookup : Lookup) (s : Fetching) (rec : Record) (f : Fetched) (r : Record)
      (scrubbed_rec : Record) (c : Called Fetching) (user : AuthInfo)
      → HasShape lookup f
      → initialized db conn deep_equal req rec.id f ≡ some r
      → req.auth_info ≡ some user
      → c.outcome
        ≡ record (Record.apply r scrubbed_rec) { updated_at = req.modify_at; updater_id = user.id }
      → (f.created ≡ false → ById.lookup r.id c.state.originals ≡ some (Record.copy r))
      → IsStamped user rec.id c.state c.outcome lookup
  unfolding Record.apply
  IsStamped-of_parts (found stored) s rec f r rec' c user (old, same) q p out originals =
      let e : r ≡ stored = sym (initialized-old rec.id f r old q) ∙ same in
      let kept : ById.lookup stored.id c.state.originals ≡ some (Record.copy stored) =
        subst (λ (x : Record). ById.lookup x.id c.state.originals ≡ some (Record.copy x)) e
          (originals old) in
      (
        ground (arith, out, e),
        ground (arith, out, e),
        ground (arith, out, e),
        ground (arith, out, e),
        ground (arith, out, e),
        kept,
      )
  IsStamped-of_parts not_found s rec f r rec' c user new q p out originals =
      ground (arith, out, initialized-IsNew rec.id f r user new p q)
  IsStamped-of_parts broken s rec f r rec' c user shape q p out originals = shape

  -- If the first loop keeps a record, then the request has a user, and the record is stamped as
  -- updated by this user at the time of the request and has the access control list of the request,
  -- none if that has none. If the database held it, then it keeps the stored identifier, database,
  -- owner, creator and time of creation, and the stored record is remembered for the hooks; if not, it
  -- has the requested identifier and belongs to the user, who created it then.
  pub fetch_for_save_lem :
      (w : W) (acl : FieldAcl) (s : Fetching) (rec : Record) (c : Called Fetching)
      → fetch_for_save db conn deep_equal req w acl s rec ≡ some c
      → c.error ≡ none
      → (user : AuthInfo) × (req.auth_info ≡ some user)
        × (c.outcome.updated_at ≡ req.modify_at)
        × (c.outcome.updater_id ≡ user.id)
        × (c.outcome.access ≡ rec.access)
        × IsStamped user rec.id c.state c.outcome (db.get w rec.id)
  unfolding fetch_for_save Record.apply
  fetch_for_save_lem w acl s rec c e ok =
      let access = conn.get_record_access w in
      let default = conn.get_record_default_access w in
      let (f, fetcher) =
        fetch_or_create_record (db.get w) access default s.fetcher rec.id req.auth_info in
      let (fine, r, q, rec', same, last) =
        with_record-Parts acl (record s { fetcher = fetcher }) rec f c e ok in
      let (user, p, out, originals) =
        merged-user (record s { fetcher = fetcher }) f.created r rec' c last in
      (
        user,
        p,
        ground (arith, out),
        ground (arith, out),
        ground (arith, out, ap (λ (x : Record). x.access) same),
        IsStamped-of_parts (db.get w rec.id) s rec f r rec' c user
            (shape_of_fetched (db.get w) access default s.fetcher rec.id req.auth_info fine) q p out
            originals,
      )
