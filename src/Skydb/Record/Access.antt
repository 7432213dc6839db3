-- ===== src/Skydb/Record/Access.antt =====
-- `Record.Accessible` of pkg/server/skydb/record.go, and the levels.
use skygear_server.Common.{◌≡◌, refl, true, Option, none, some, arith}
use skygear_server.Skydb.Acl.{RecordAcl, write_level, read_level}
use skygear_server.Skydb.Access.Grants.{write-implies-read}
use skygear_server.Skydb.AuthInfo.{AuthInfo}
use skygear_server.Skydb.Record.{Record, accessible, accessible_by_list}

write-implies-read_listed :
    (list : RecordAcl) (r : Record) (authinfo : Option AuthInfo)
    → accessible_by_list list r authinfo write_level ≡ true
    → accessible_by_list list r authinfo read_level ≡ true
unfolding accessible_by_list
write-implies-read_listed list r authinfo h = ground (arith, write-implies-read list authinfo)

by_access :
    (o : Option RecordAcl) (r : Record) (authinfo : Option AuthInfo)
    → r.access ≡ o
    → accessible r authinfo write_level ≡ true
    → accessible r authinfo read_level ≡ true
unfolding accessible
by_access none r authinfo e h = rw e refl
by_access (some list) r authinfo e h = rw e (write-implies-read_listed list r authinfo (rw e at h))

-- Whoever may write a record may read it.
pub write-implies-read_record :
    (r : Record) (authinfo : Option AuthInfo)
    → accessible r authinfo write_level ≡ true
    → accessible r authinfo read_level ≡ true
write-implies-read_record r authinfo h = by_access r.access r authinfo refl h
