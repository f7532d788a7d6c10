-- ===== src/PriorityQueue/Tests.antt =====
-- Sample queues for libcorsaro/pqueue.c, and the theorems at them.
use corsaro.Base.{
  ℕ, ◌≡◌, ◌↔◌, refl, arith, Bool, true, false, not, ltb, leb, some, [], ◌∷◌, ◌++◌, map, ◌==◌,
  if◌then◌else◌, inl,
}
use corsaro.PriorityQueue.{
  Pqueue, pqueue_insert, pqueue_remove, pqueue_pop, pqueue_print, pqueue_is_valid,
}
use corsaro.PriorityQueue.Order.{IsPriority}
use corsaro.PriorityQueue.Heap.{IsHeap, IsValid, count, held}
use corsaro.PriorityQueue.Insert.{Inserted, pqueue_insert_correct}
use corsaro.PriorityQueue.Remove.{Removed, Popped, pqueue_pop_correct, pqueue_remove_correct}
use corsaro.PriorityQueue.Print.{IsOrdered, list_count, pqueue_print_sorts}
use corsaro.PriorityQueue.Valid.{pqueue_is_valid_iff}

-- The larger number stands above.
abbrev geb : ℕ → ℕ → Bool
geb a b = leb b a

ltb-IsPriority : IsPriority ltb geb
ltb-IsPriority = record {
  yes = λ a b. ground arith;
  no = λ a b. ground arith;
  trans = λ a b c. ground arith;
}

-- The heap 9, 5, 7 in an array that is full.
abbrev three : Pqueue
three = record {
  size = 4;
  avail = 4;
  step = 4;
  cells = record {
    d = λ j. if j == 1 then 9 else if j == 2 then 5 else 7;
    pos = λ x. if x == 9 then 1 else if x == 5 then 2 else 3;
  };
}

three-IsValid : IsValid geb three
three-IsValid = record {
  sized = omega arith;
  fits = omega arith;
  grows = omega arith;
  heap = λ c low high. ground arith;
  placed = λ j low high. ground arith;
}

-- Element 8 rises above 5, and the array grows.
insert_rises :
    let q = (pqueue_insert ltb true three 8).1 in
    q.avail ∷ map q.cells.d (1 ∷ 2 ∷ 3 ∷ 4 ∷ []) ++ map q.cells.pos (9 ∷ 8 ∷ 7 ∷ 5 ∷ [])
    ≡ 8 ∷ 9 ∷ 8 ∷ 7 ∷ 5 ∷ 1 ∷ 2 ∷ 3 ∷ 4 ∷ []
unfolding pqueue_insert
insert_rises = refl

insert_fails : pqueue_insert ltb false three 8 ≡ (1, three)
unfolding pqueue_insert
insert_fails = refl

pop_first : (pqueue_pop ltb three).0 ≡ some 9
unfolding pqueue_pop
pop_first = refl

print_in_order : pqueue_print ltb three ≡ 9 ∷ 7 ∷ 5 ∷ []
unfolding pqueue_print pqueue_pop
print_in_order = refl

three_held5 : held three 5 ≡ 1
unfolding count
three_held5 = refl

three_held8 : held three 8 ≡ 0
unfolding count
three_held8 = refl

pqueue_insert_correct_example : Inserted geb true three 8 (pqueue_insert ltb true three 8)
pqueue_insert_correct_example =
    pqueue_insert_correct ltb geb ltb-IsPriority true three 8 three-IsValid three_held8

pqueue_pop_correct_example : Popped geb three (pqueue_pop ltb three)
pqueue_pop_correct_example = pqueue_pop_correct ltb geb ltb-IsPriority three three-IsValid

-- The larger number stands above, and the callback is true of two equal ones, as ft_cmp_pri is.
abbrev leb_callback : ℕ → ℕ → Bool
leb_callback a b = leb a b

leb-IsPriority : IsPriority leb_callback geb
leb-IsPriority = record {
  yes = λ a b. ground arith;
  no = λ a b. ground arith;
  trans = λ a b c. ground arith;
}

pqueue_remove_correct_example : Removed geb three 5 (pqueue_remove leb_callback three 5)
pqueue_remove_correct_example =
    pqueue_remove_correct leb_callback geb leb-IsPriority three 5 three-IsValid
      (omega (arith, three_held5)) (inl (omega arith))

-- The callback is true of any two elements, as of equal ones. The element in the last slot is removed,
-- and is still there, in place of the first.
remove_last_stays : map (pqueue_remove (λ a b. true) three 7).cells.d (1 ∷ 2 ∷ []) ≡ 7 ∷ 5 ∷ []
unfolding pqueue_remove
remove_last_stays = refl

pqueue_print_sorts_example :
    IsOrdered geb (pqueue_print ltb three)
    × ((y : ℕ) → list_count y (pqueue_print ltb three) ≡ held three y)
pqueue_print_sorts_example = pqueue_print_sorts ltb geb ltb-IsPriority three three-IsValid

pqueue_is_valid_iff_example :
    (pqueue_is_valid ltb three ≡ true) ↔ IsHeap (λ a b. not (ltb a b)) three.cells.d three.size
pqueue_is_valid_iff_example = pqueue_is_valid_iff ltb three
