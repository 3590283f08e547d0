-- ===== src/Tests/Virtual.antt =====
-- lib/vmalloc.c: a block of virtual pages over the page tables.
use kvm_unit_tests.Base.{ℕ, zero, suc, ◌^◌, ◌*◌, List, [], ◌∷◌, some, none, ◌==◌, if◌then◌else◌}
use kvm_unit_tests.Paging.{PhysMemory}
use kvm_unit_tests.Paging.Label.{Labels}
use kvm_unit_tests.Vmalloc.{Vm}

-- PT_USER_MASK
abbrev user : ℕ
user = 4

-- The frames from `f` on, `n` of them.
abbrev frames_from : ℕ → ℕ → List ℕ
frames_from zero f = []
frames_from (suc n) f = f ∷ frames_from n (suc f)

-- An empty root in frame 1, and sixteen free frames.
abbrev memory : PhysMemory
memory = record { entry = λ f j. 0; supply = frames_from 16 2 }

abbrev root_label : Labels
root_label f = if f == 1 then some (4, 0) else none

abbrev empty : Vm PhysMemory
empty = record { vfree_top = 3 * 2 ^ 30; words = λ a. 0; pages = memory }
