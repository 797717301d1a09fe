-- ===== src/Stack/Tests.antt =====
-- The theorems on apc_stack.c at a stack of numbers that has to grow.
use pecl_caching_apc.Base.{ℕ, ◌≡◌, [], ◌∷◌, some}
use pecl_caching_apc.Stack.{Stack, create, push, pop}
use pecl_caching_apc.Stack.Laws.{Holds, create-Holds, push-Holds, pop-Holds}

abbrev one : Stack ℕ
one = push (create 1) 7

one-Holds : Holds one (7 ∷ [])
one-Holds = push-Holds (create 1) [] 7 (create-Holds 1)

two-Holds : Holds (push one 8) (7 ∷ 8 ∷ [])
two-Holds = push-Holds one (7 ∷ []) 8 one-Holds

push-Holds_example : Holds (push one 8) (7 ∷ 8 ∷ [])
push-Holds_example = push-Holds one (7 ∷ []) 8 one-Holds

pop-Holds_example : (t : Stack ℕ) × (pop (push one 8) ≡ some (8, t)) × Holds t (7 ∷ [])
pop-Holds_example = pop-Holds (push one 8) (7 ∷ []) 8 two-Holds
