-- ===== src/Security/Approvals/Edges.antt =====
-- The life of an approval: the edges that its state can take, and where it comes to rest.
use scrappy_os.Prelude.{String, ◌≡◌, ◌⊎◌, Bool, true, false, some, List, [], ◌∷◌, arith}
use scrappy_os.Core.Enums.{ApprovalState, pending, approved, denied, expired, consumed}
use scrappy_os.Security.Approvals.{ApprovalRow, Gate, find_row}
use scrappy_os.Security.Approvals.Trace.{Op, step, run, row_after, find_row-step}

abbrev pub edge : ApprovalState → ApprovalState → Bool
edge pending approved = true
edge pending denied = true
edge pending expired = true
edge approved consumed = true
edge approved expired = true
edge _ _ = false

row_after-edge :
    (op : Op) (row : ApprovalRow)
    → ((row_after op row).state ≡ row.state) ⊎ (edge row.state (row_after op row).state ≡ true)
row_after-edge op row = ground arith

-- A call of the gate never loses a request, and moves its state along one edge or not at all.
pub step-edge :
    (op : Op) (g : Gate) (id : String) (row : ApprovalRow)
    → find_row id g.rows ≡ some row
    → (next : ApprovalRow) × (find_row id (step op g).rows ≡ some next)
      × ((next.state ≡ row.state) ⊎ (edge row.state next.state ≡ true))
step-edge op g id row h = (row_after op row, find_row-step op g id row h, row_after-edge op row)

abbrev pub is_settled : ApprovalState → Bool
is_settled denied = true
is_settled expired = true
is_settled consumed = true
is_settled _ = false

pub row_after-settled :
    (op : Op) (row : ApprovalRow) → is_settled row.state ≡ true → row_after op row ≡ row
row_after-settled op row h = ground arith

-- A request that was denied, has expired or was spent is never changed again, whatever calls of the
-- gate are made, one after another.
pub run-settled :
    (ops : List Op) (g : Gate) (id : String) (row : ApprovalRow)
    → find_row id g.rows ≡ some row
    → is_settled row.state ≡ true
    → find_row id (run ops g).rows ≡ some row
unfolding run
run-settled [] g id row h s = h
run-settled (op ∷ ops) g id row h s =
    run-settled ops (step op g) id row
      (rw (row_after-settled op row s) at (find_row-step op g id row h)) s
