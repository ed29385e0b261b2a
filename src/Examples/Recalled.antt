-- ===== src/Examples/Recalled.antt =====
-- Reads of the long-term memory of src/agent_runtime/memory/postgres.py.
use agent_runtime_kit.Memory.Records.{
  get, Identity, MemoryRecord, Written, cleanup_expired, delete, put,
}
use agent_runtime_kit.Canonical.{Fields, Json}
use agent_runtime_kit.Base.{List, String, [], arith, none, refl, some, ◌≡◌}
use agent_runtime_kit.Memory.Recall.{IsWritten, get-cleanup_expired, get-delete, get-put}

abbrev identity_of : String → Identity
identity_of key = record { namespace = "app"; user_key = "me"; memory_key = key }

abbrev written : Written
written = record { value = Json.text "red"; tags = Fields.end; expires_at = some 50 }

abbrev one_record : List MemoryRecord
one_record = (put 10 11 1 (identity_of "color") (record written { value = Json.null }) []).1

get-put_example :
    IsWritten (identity_of "color") written (put 12 13 2 (identity_of "color") written one_record).0
    × (get 20 (identity_of "color") (put 12 13 2 (identity_of "color") written one_record).1
        ≡ some (put 12 13 2 (identity_of "color") written one_record).0)
get-put_example =
    get-put 12 13 2 20 (identity_of "color") (identity_of "color") written one_record refl

get-delete_example :
    get 20 (identity_of "color") (delete (identity_of "size") one_record).1
    ≡ get 20 (identity_of "color") one_record
get-delete_example = get-delete 20 (identity_of "size") (identity_of "color") one_record

get-cleanup_expired_example :
    get 60 (identity_of "color") (cleanup_expired 55 none one_record).1
    ≡ get 60 (identity_of "color") one_record
get-cleanup_expired_example =
    get-cleanup_expired 55 60 none (identity_of "color") one_record (omega arith)
