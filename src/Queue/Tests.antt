-- ===== src/Queue/Tests.antt =====
-- Runs and witnesses of the queue.
use hetero_indexing.Prelude.{◌≡◌, refl, List, [], ◌∷◌, ◌++◌, true, false, arith}
use hetero_indexing.Queue.{Queue, construct, empty, full, push, pop, expand}
use hetero_indexing.Queue.Contents.{IsValid, contents}
use hetero_indexing.Queue.Grow.{expand_lem}
use hetero_indexing.Queue.Fifo.{
  Op, put, get, run, run_list, take_oldest, push_appends, pop_refines, run_refines,
}

-- Three pointers in four cells, round the end.
abbrev wrapped : Queue
wrapped = record { size = 4; front = 3; back = 2; items = 12 ∷ 13 ∷ 0 ∷ 11 ∷ [] }

wrapped-IsValid : IsValid wrapped
wrapped-IsValid = omega arith

abbrev script : List Op
script = put 5 ∷ put 6 ∷ get ∷ put 7 ∷ get ∷ get ∷ get ∷ []

run_grows : run (construct 2) script ≡ 5 ∷ 6 ∷ 7 ∷ 0 ∷ []
unfolding run push pop empty full expand construct
run_grows = refl

full-wrapped : full wrapped ≡ true
unfolding full
full-wrapped = refl

expand_lem_example :
    IsValid (expand wrapped)
    × (contents (expand wrapped) ≡ contents wrapped)
    × (full (expand wrapped) ≡ false)
    × ((expand wrapped).size ≡ 8)
expand_lem_example = expand_lem wrapped-IsValid (omega arith) full-wrapped

push_appends_example :
    IsValid (push wrapped 14) × (contents (push wrapped 14) ≡ contents wrapped ++ (14 ∷ []))
push_appends_example = push_appends wrapped-IsValid 14 (λ e. omega arith)

pop_refines_example :
    IsValid (pop wrapped).0
    × ((contents (pop wrapped).0, (pop wrapped).1) ≡ take_oldest (contents wrapped))
pop_refines_example = pop_refines wrapped-IsValid

run_refines_example : run wrapped script ≡ run_list (contents wrapped) script
run_refines_example = run_refines script wrapped-IsValid (omega arith)
