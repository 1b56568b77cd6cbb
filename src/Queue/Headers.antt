-- ===== src/Queue/Headers.antt =====
-- The header carrier: what is set is read back, and nothing else changes.
use workflow_automation_go_z.Common.{String, some, ◌≡◌, refl, arith, str_eq, eq_iff, if◌then◌else◌}
use workflow_automation_go_z.Amqp.{Argument, string, Entries, end, entry, find, store, lookup}
use workflow_automation_go_z.Queue.{header_get, header_set}

find-store :
    (k j : String) (v : Argument) (es : Entries)
    → find j (store k v es) ≡ (if str_eq k j then some v else find j es)
unfolding find store
find-store k j v end = refl
find-store k j v (entry i u es) =
    ground (arith, eq_iff k j, eq_iff i k, eq_iff i j, find-store k j v es)

-- After `Set(k, val)`, `Get` of a key returns `val` if it is `k`, and otherwise what it did before.
pub header_get-set :
    (k j val : String) (c : Entries)
    → header_get (some (header_set c k val)) j ≡ (if str_eq k j then val else header_get (some c) j)
unfolding header_get header_set lookup
header_get-set k j val c = rw (find-store k j (string val) c, header_get) (ground arith)
