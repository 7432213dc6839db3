-- ===== src/Recordutil/Save/Identity.antt =====
-- The functions that `RecordSaveHandler` of pkg/server/recordutil/recordutil.go runs on each record do not
-- change which record it is, given that the database, its `Save` and the hooks do not.
use skygear_server.Common.{
  ◌≡◌, refl, subst, ap, Bool, false, Option, none, some, [], arith, Option-cases, Bool-cases, inl,
  inr, ◌>>=◌, >>=-eq-some,
}
use skygear_server.Common.Dict
use skygear_server.Skydb.FieldAcl
use skygear_server.Skydb.FieldAcl.{FieldAcl, write}
use skygear_server.Skydb.Record
use skygear_server.Skydb.Record.{Record, entries}
use skygear_server.Skydb.RecordMap as ById
use skygear_server.Skydb.Value.{Value, RecordId}
use skygear_server.Skyerr.{Error}
use skygear_server.Plugin.Hook.{Called}
use skygear_server.Recordutil.Delta.{derive_delta_record}
use skygear_server.Recordutil.Scrub.{
  Scrubbed, zero_record, with_error, scrub_record_fields_for_write,
}
use skygear_server.Recordutil.Scrub.Rounds.{loop-contents}
use skygear_server.Recordutil.Fetch.{Lookup, found, Fetched}
use skygear_server.Recordutil.Fetch.Found.{found_of_fetched}
use skygear_server.Recordutil.Modify.{Database, Conn, ModifyRequest}
use skygear_server.Recordutil.Modify.Identity.{KeepsId}
use skygear_server.Recordutil.Save.{
  Fetching, Originals, initialized, scrubbed, merged, with_record, fetch_for_save,
  apply_default_access, save_record,
}

-- `Save` writes to the record but does not change its identifier.
abbrev pub SaveKeepsId : {W : Type 0} → Database W → Type 0
SaveKeepsId {W} db = (w : W) (r : Record) → (db.save w r).1.id ≡ r.id

-- `Get` fills the record that was asked for.
abbrev pub GetsById : (RecordId → Lookup) → Type 0
GetsById get = (id : RecordId) (r : Record) → get id ≡ found r → r.id ≡ id

module _ {W : Type 0} (db : Database W) (conn : Conn W) (deep_equal : Value → Value → Bool)
    (req : ModifyRequest W) where
  derive_delta_record-id :
      (dst : Record) (base : Option Record) (rec : Record)
      → (derive_delta_record deep_equal dst base rec).id ≡ rec.id
  unfolding derive_delta_record
  derive_delta_record-id dst none rec = refl
  derive_delta_record-id dst (some base) rec = refl

  pub save_record-KeepsId :
      (originals : Originals)
      → SaveKeepsId db
      → KeepsId (save_record db conn deep_equal req originals)
  unfolding save_record
  save_record-KeepsId originals keeps w rec called e = ground (
    arith,
    e,
    keeps w (derive_delta_record deep_equal zero_record (ById.lookup rec.id originals) rec),
    derive_delta_record-id zero_record (ById.lookup rec.id originals) rec,
  )

  pub apply_default_access-KeepsId :
      (w : W) → KeepsId (apply_default_access db conn deep_equal req w)
  unfolding apply_default_access
  apply_default_access-KeepsId w s rec called e = ground (arith, e)

  initialized-id :
      (id : RecordId) (f : Fetched) (r : Record)
      → (f.created ≡ false → f.outcome.id ≡ id)
      → initialized db conn deep_equal req id f ≡ some r
      → r.id ≡ id
  unfolding initialized
  initialized-id id f r h e = ground (arith, e)

  merged-id :
      (id : RecordId) (s : Fetching) (created : Bool) (r : Record) (result : Record × Option Error)
      (c : Called Fetching)
      → r.id ≡ id
      → result.0.id ≡ id
      → merged db conn deep_equal req s created r result ≡ some c
      → c.outcome.id ≡ id
  unfolding merged Record.apply
  merged-id id s created r (rec, none) c h h' e = ground (arith, e)
  merged-id id s created r (rec, some x) c h h' e = ground (arith, e)

  with_error-contents :
      (o : Option Scrubbed) (rec : Record) (result : Record × Option Error)
      → ((x : Scrubbed) → o ≡ some x → x.outcome ≡ record rec { contents = x.outcome.contents })
      → with_error o ≡ some result
      → result.0 ≡ record rec { contents = result.0.contents }
  with_error-contents none rec result h e = absurd (cc)
  with_error-contents (some x) rec result h e =
      subst (λ (r : Record). r ≡ record rec { contents = r.contents }) (ground (arith, e))
        (h x refl)

  scrub-contents :
      (acl : FieldAcl) (rec r : Record) (result : Record × Option Error)
      → scrub_record_fields_for_write deep_equal req.auth_info rec r acl req.atomic ≡ some result
      → result.0 ≡ record rec { contents = result.0.contents }
  unfolding scrub_record_fields_for_write
  scrub-contents acl rec r result e =
      with_error-contents _ rec result
        (λ x p.
          loop-contents (λ k. FieldAcl.accessible acl rec.id.type k write req.auth_info (some r))
            req.atomic
            (Dict.keys (entries (derive_delta_record deep_equal zero_record (some r) rec).contents))
            rec [] x p)
        e

  -- Scrubbing changes nothing but the fields of the record.
  pub scrubbed-contents :
      (acl : FieldAcl) (rec r : Record) (result : Record × Option Error)
      → scrubbed db conn deep_equal req acl rec r ≡ some result
      → result.0 ≡ record rec { contents = result.0.contents }
  unfolding scrubbed
  scrubbed-contents acl rec r result e = elim (Bool-cases req.with_master_key) [
    | inl m ↦
        let same : rec ≡ result.0 = ground (arith, e, m) in
        subst (λ (x : Record). x ≡ record rec { contents = x.contents }) same refl
    | inr m ↦ scrub-contents acl rec r result (ground (arith, e, m))
  ]

  with_record-id :
      (acl : FieldAcl) (s : Fetching) (rec : Record) (f : Fetched) (c : Called Fetching)
      → (f.created ≡ false → f.error ≡ none → f.outcome.id ≡ rec.id)
      → with_record db conn deep_equal req acl s rec f ≡ some c
      → c.outcome.id ≡ rec.id
  unfolding with_record
  with_record-id acl s rec f c h e = elim (Option-cases f.error) [
    | inr (x, p) ↦ ground (arith, e, p)
    | inl p ↦
        let chain : (initialized db conn deep_equal req rec.id f >>= λ r.
        scrubbed db conn deep_equal req acl rec r >>= λ result.
        merged db conn deep_equal req s f.created r result)
            ≡ some c =
          ground (arith, e, p) in
        let (r, q, chain') = >>=-eq-some _ _ chain in
        let (result, q', last) = >>=-eq-some _ _ chain' in
        merged-id rec.id s f.created r result c (initialized-id rec.id f r (λ k. h k p) q)
          (ap (λ (x : Record). x.id) (scrubbed-contents acl rec r result q')) last
  ]

  pub fetch_for_save-id :
      (w : W) (acl : FieldAcl) (s : Fetching) (rec : Record) (c : Called Fetching)
      → GetsById (db.get w)
      → fetch_for_save db conn deep_equal req w acl s rec ≡ some c
      → c.outcome.id ≡ rec.id
  unfolding fetch_for_save
  fetch_for_save-id w acl s rec c h e =
      with_record-id acl _ rec _ c
        (λ old ok. h rec.id _ (
          found_of_fetched (db.get w) (conn.get_record_access w) (conn.get_record_default_access w)
            s.fetcher rec.id req.auth_info old ok))
        e
