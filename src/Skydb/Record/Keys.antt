-- ===== src/Skydb/Record/Keys.antt =====
-- `Get`, `Set` and `Remove` of pkg/server/skydb/record.go against one another.
use mathlib.Core.Option
use skygear_server.Common.{
  true, false, ℕ, String, ◌≡◌, ◌≢◌, refl, ap, sym, ◌∙◌, Bool, false, Option, none, some, [], ◌==◌,
  eq_iff, arith, if◌then◌else◌, Option-cases, inl, inr,
}
use skygear_server.Common.Dict
use skygear_server.Common.Dict.{lookup-insert, lookup-delete}
use skygear_server.Skydb.Value.{Value, Fields, Data, null, end, field, text, time}
use skygear_server.Skydb.Value.{acl, nil_transient, transient}
use skygear_server.Skydb.Record.{
  Record, Key, user_key, entries, key_of, reserved_key_of, transient_or_unknown, get_at, get,
  set_at, set, remove_at, remove, to_fields, from_fields, with_text, with_time, set_access,
  set_transient_map, set_user_key, or_null, delete_key, transient_value,
}

to_fields-from_fields : (m : Fields) → to_fields (from_fields m) ≡ m
unfolding to_fields from_fields
to_fields-from_fields end = refl
to_fields-from_fields (field k v m) = ap (field k v) (to_fields-from_fields m)

with_text-eq-some :
    (v : Value) (f : String → Record) {r' : Record}
    → with_text v f ≡ some r'
    → (s : String) × (v ≡ text s) × (f s ≡ r')
unfolding with_text
with_text-eq-some (text s) f h = (s, refl, cc)
with_text-eq-some null f h = absurd (cc)
with_text-eq-some _ f h = absurd (cc)

with_time-eq-some :
    (v : Value) (f : ℕ → Record) {r' : Record}
    → with_time v f ≡ some r'
    → (t : ℕ) × (v ≡ time t) × (f t ≡ r')
unfolding with_time
with_time-eq-some (time t) f h = (t, refl, cc)
with_time-eq-some null f h = absurd (cc)
with_time-eq-some _ f h = absurd (cc)

text_set :
    (k : Key) (v : Value) (f : String → Record) {r' : Record}
    → ((s : String) → get_at k (f s) ≡ some (text s))
    → with_text v f ≡ some r'
    → get_at k r' ≡ some v
text_set k v f {r'} read h =
    let (s, e, p) = with_text-eq-some v f h in ap (get_at k) (sym p) ∙ read s ∙ ap some (sym e)

time_set :
    (k : Key) (v : Value) (f : ℕ → Record) {r' : Record}
    → ((t : ℕ) → get_at k (f t) ≡ some (time t))
    → with_time v f ≡ some r'
    → get_at k r' ≡ some v
time_set k v f {r'} read h =
    let (t, e, p) = with_time-eq-some v f h in ap (get_at k) (sym p) ∙ read t ∙ ap some (sym e)

access_set :
    (v : Value) (r : Record) {r' : Record}
    → set_access v r ≡ some r'
    → some (acl r'.access) ≡ some v
unfolding set_access
access_set (acl a) r h = cc (ap (λ (o : Option Record). Option.map (λ (x : Record). x.access) o) h)
access_set null r h = cc
access_set _ r h = cc

transient_map_set :
    (v : Value) (r : Record) {r' : Record}
    → set_transient_map v r ≡ some r'
    → some (transient_value r'.transient) ≡ some v
unfolding set_transient_map transient_value
transient_map_set nil_transient r h = ground arith
transient_map_set (transient m) r h = ground (arith, to_fields-from_fields m)
transient_map_set null r h = cc
transient_map_set _ r h = cc

user_key_set :
    (key : String) (v : Value) (m : Option Data) (r : Record) {r' : Record}
    → set_user_key key v m r ≡ some r'
    → or_null (Dict.lookup key (entries r'.contents)) ≡ v
unfolding set_user_key
user_key_set key v none r h = cc
user_key_set key v (some m) r h = ground (arith, lookup-insert key key v m, eq_iff key key)

get_at-set_at :
    (k : Key) (v : Value) (r : Record) {r' : Record} → set_at k v r ≡ some r' → get_at k r' ≡ some v
unfolding get_at set_at
get_at-set_at Key.no_key v r h = cc
get_at-set_at Key.type_key v r h = text_set Key.type_key v _ (λ s. refl) h
get_at-set_at Key.id_key v r h = text_set Key.id_key v _ (λ s. refl) h
get_at-set_at Key.database_id_key v r h = text_set Key.database_id_key v _ (λ s. refl) h
get_at-set_at Key.owner_id_key v r h = text_set Key.owner_id_key v _ (λ s. refl) h
get_at-set_at Key.access_key v r h = access_set v r h
get_at-set_at Key.created_at_key v r h = time_set Key.created_at_key v _ (λ s. refl) h
get_at-set_at Key.created_by_key v r h = text_set Key.created_by_key v _ (λ s. refl) h
get_at-set_at Key.updated_at_key v r h = time_set Key.updated_at_key v _ (λ s. refl) h
get_at-set_at Key.updated_by_key v r h = text_set Key.updated_by_key v _ (λ s. refl) h
get_at-set_at Key.transient_map_key v r h = transient_map_set v r h
get_at-set_at Key.unknown_key v r h = cc
get_at-set_at (Key.transient_key name) v r h =
    ground (arith, lookup-insert name name v (entries r.transient), eq_iff name name)
get_at-set_at (user_key key) v r h = ap some (user_key_set key v r.contents r h)

-- If `Set` does not panic, what it stores under a key, reserved or not, `Get` answers at that key.
pub get-set_self :
    (key : String) (v : Value) (r : Record) {r' : Record}
    → set key v r ≡ some r'
    → get key r' ≡ some v
unfolding get set
get-set_self key v r h = get_at-set_at (key_of key) v r h

reserved_key_of-ne-user_key : (key name : String) → reserved_key_of key ≢ user_key name
unfolding reserved_key_of transient_or_unknown
reserved_key_of-ne-user_key key name = ground arith

branch_user_key :
    (b : Bool) (reserved : Key) (key name : String)
    → reserved ≢ user_key name
    → (if b then reserved else user_key key) ≡ user_key name
    → key ≡ name
branch_user_key true reserved key name differs h = absurd (differs h)
branch_user_key false reserved key name differs h = cc

-- The key of a user's field is the text itself.
pub key_of-eq-user_key : (key name : String) → key_of key ≡ user_key name → key ≡ name
unfolding key_of
key_of-eq-user_key String.[] name h = cc
key_of-eq-user_key (String.◌∷◌ c rest) name h =
    branch_user_key _ _ (String.◌∷◌ c rest) name
      (reserved_key_of-ne-user_key (String.◌∷◌ c rest) name) h

abbrev is_user_key : Key → String → Bool
is_user_key (user_key j) name = name == j
is_user_key _ name = false

is_user_key_lem :
    (key j : String) (k : Key)
    → key_of key ≡ user_key key
    → key_of j ≡ k
    → is_user_key k key ≡ (key == j)
is_user_key_lem key j (user_key name) e h =
    ground (arith, key_of-eq-user_key j name, eq_iff key name, eq_iff key j)
is_user_key_lem key j Key.no_key e h = ground (arith, eq_iff key j)
is_user_key_lem key j _ e h = ground (arith, eq_iff key j)

lookup-nil : (j : String) → Dict.lookup {V = Value} j [] ≡ none
unfolding Dict.lookup
lookup-nil j = refl

get_at-delete :
    (k : Key) (name : String) (r : Record)
    → get_at k (record r { contents = delete_key name r.contents })
      ≡ (if is_user_key k name then some null else get_at k r)
unfolding get_at
get_at-delete (user_key j) name r = elim (Option-cases r.contents) [
  | inl e ↦ rw e (ground (arith, lookup-nil j))
  | inr (m, e) ↦ rw e (ground (arith, lookup-delete name j m))
]
get_at-delete Key.no_key name r = refl
get_at-delete _ name r = refl

-- What `Remove` did when it did not panic.
pub remove_at-eq-some :
    (k : Key) (r : Record) {r' : Record}
    → remove_at k r ≡ some r'
    → (name : String) × (k ≡ user_key name)
      × (record r { contents = delete_key name r.contents } ≡ r')
unfolding remove_at
remove_at-eq-some (user_key name) r h = (name, refl, cc)
remove_at-eq-some Key.no_key r h = absurd (cc)
remove_at-eq-some _ r h = absurd (cc)

-- If `Remove` does not panic, `Get` answers nil at the field that was removed, and at every other key,
-- reserved or not, what it answered before.
pub get-remove :
    (key j : String) (r : Record) {r' : Record}
    → remove key r ≡ some r'
    → get j r' ≡ (if key == j then some null else get j r)
unfolding remove get
get-remove key j r {r'} h =
    let (name, e, p) = remove_at-eq-some (key_of key) r h in
    let q : key ≡ name = key_of-eq-user_key key name e in
    ap (get_at (key_of j)) (sym p)
    ∙ get_at-delete (key_of j) name r
    ∙ ap (λ (b : Bool). if b then some null else get_at (key_of j) r)
        (ap (is_user_key (key_of j)) (sym q)
          ∙ is_user_key_lem key j (key_of j) (e ∙ ap user_key (sym q)) refl)

reserved_key_of-ne-no_key : (key : String) → reserved_key_of key ≢ Key.no_key
unfolding reserved_key_of transient_or_unknown
reserved_key_of-ne-no_key key = ground arith

branch_ne_no_key :
    (b : Bool) (reserved : Key) (key : String)
    → reserved ≢ Key.no_key
    → (if b then reserved else user_key key) ≢ Key.no_key
branch_ne_no_key true reserved key differs h = differs h
branch_ne_no_key false reserved key differs h = cc

get_at-eq-none : (k : Key) (r : Record) → get_at k r ≡ none → k ≡ Key.no_key
unfolding get_at
get_at-eq-none Key.no_key r h = refl
get_at-eq-none _ r h = absurd (cc)

-- `Get` panics at the empty key alone.
pub get-ne-none : (key : String) (r : Record) → key ≢ "" → get key r ≢ none
unfolding get key_of
get-ne-none String.[] r h = absurd (h refl)
get-ne-none (String.◌∷◌ c rest) r h = λ e.
    branch_ne_no_key _ _ (String.◌∷◌ c rest) (reserved_key_of-ne-no_key (String.◌∷◌ c rest))
      (get_at-eq-none _ r e)

delete_key_lem :
    (name k : String) (m : Option Data)
    → Dict.lookup k (entries (delete_key name m))
      ≡ (if name == k then none else Dict.lookup k (entries m))
delete_key_lem name k none = ground (arith, lookup-nil k)
delete_key_lem name k (some m) = lookup-delete name k m

-- The fields that are left when `Remove` does not panic.
pub contents-remove :
    (key k : String) (r r' : Record)
    → remove key r ≡ some r'
    → Dict.lookup k (entries r'.contents)
      ≡ (if key == k then none else Dict.lookup k (entries r.contents))
unfolding remove
contents-remove key k r r' h =
    let (name, e, p) = remove_at-eq-some (key_of key) r h in
    let q : key ≡ name = key_of-eq-user_key key name e in
    ap (λ (x : Record). Dict.lookup k (entries x.contents)) (sym p)
    ∙ delete_key_lem name k r.contents
    ∙ ap (λ (n : String). if n == k then none else Dict.lookup k (entries r.contents)) (sym q)

-- `Remove` does not panic at a user's field.
pub remove-user_key :
    (key : String) (r : Record)
    → key_of key ≡ user_key key
    → (r' : Record) × (remove key r ≡ some r')
unfolding remove remove_at
remove-user_key key r e =
    (record r { contents = delete_key key r.contents }, ap (λ (k : Key). remove_at k r) e)
