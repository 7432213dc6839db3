-- ===== src/Recordutil/Scrub/Reading.antt =====
-- The loop of `scrubRecordFieldsForRead` of pkg/server/recordutil/recordutil.go does not change which
-- record a record is.
use skygear_server.Common.{
  String, ◌≡◌, refl, ◌∙◌, true, false, Option, some, List, [], ◌∷◌, arith, Option-cases, inl, inr,
}
use skygear_server.Skydb.AuthInfo.{AuthInfo}
use skygear_server.Skydb.FieldAcl
use skygear_server.Skydb.FieldAcl.{FieldAcl, Outcome, answer, panicked, out_of_fuel, read}
use skygear_server.Skydb.Record
use skygear_server.Skydb.Record.{Record, user_keys}
use skygear_server.Skydb.Record.Identity.{id-remove}
use skygear_server.Recordutil.Scrub.{scrub_read_loop, scrub_record_fields_for_read}

id-round :
    (check : Record → String → Outcome) (key : String) (keys : List String) (rec out : Record)
    (verdict : Outcome)
    → check rec key ≡ verdict
    → ((r : Record) → scrub_read_loop check keys r ≡ some out → out.id ≡ r.id)
    → scrub_read_loop check (key ∷ keys) rec ≡ some out
    → out.id ≡ rec.id
unfolding scrub_read_loop
id-round check key keys rec out (answer true) v ih e = ih rec (ground (arith, e, v))
id-round check key keys rec out (answer false) v ih e =
    elim (Option-cases (Record.remove key rec)) [
      | inl p ↦ absurd (ground (arith, e, v, p))
      | inr (rec', p) ↦ ih rec' (ground (arith, e, v, p)) ∙ id-remove key rec rec' p
    ]
id-round check key keys rec out panicked v ih e = absurd (ground (arith, e, v))
id-round check key keys rec out out_of_fuel v ih e = absurd (ground (arith, e, v))

id-scrub_read_loop :
    (check : Record → String → Outcome) (keys : List String) (rec out : Record)
    → scrub_read_loop check keys rec ≡ some out
    → out.id ≡ rec.id
unfolding scrub_read_loop
id-scrub_read_loop check [] rec out e = ground (arith, e)
id-scrub_read_loop check (key ∷ keys) rec out e =
    id-round check key keys rec out (check rec key) refl
      (λ r p. id-scrub_read_loop check keys r out p) e

pub id-scrub_record_fields_for_read :
    (auth_info : Option AuthInfo) (rec out : Record) (acl : FieldAcl)
    → scrub_record_fields_for_read auth_info rec acl ≡ some out
    → out.id ≡ rec.id
unfolding scrub_record_fields_for_read
id-scrub_record_fields_for_read auth_info rec out acl e =
    id-scrub_read_loop (λ r key. FieldAcl.accessible acl rec.id.type key read auth_info (some r))
      (user_keys rec) rec out e
