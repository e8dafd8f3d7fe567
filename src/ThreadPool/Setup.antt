-- ===== src/ThreadPool/Setup.antt =====
-- `qsort_mt` of hw1/qsort-mt.c: the pool is set up and taken down again, and what happens when a resource
-- is not to be had. The answers of the system are parameters, the calls that matter are the result, in
-- their order; a call under `verify` is one that succeeds. The joins are calls that return. For a pool
-- of 0 threads the source writes to `pool[0]`, outside the pool; that write is `hand_out` here, too.
pub mod Balance
pub mod Sorting
pub mod Tests
use linux_summer.Prelude.{
  ℕ, zero, suc, ◌+◌, ◌-◌, ◌≤◌, ◌<◌, ◌≡◌, refl, sym, ap, subst, ◌∙◌, ◌⊎◌, inl, inr, Bool, true,
  false, not, List, [], ◌∷◌, ◌++◌, tally, tally-append, ltb, if◌then◌else◌, Bool-cases, arith,
}

pub data Resource : Type 0 where
  mtx_al : Resource
  pool : Resource
  mtx_st : (i : ℕ) → Resource
  cond_st : (i : ℕ) → Resource
  thread : (i : ℕ) → Resource

pub data Call : Type 0 where
  acquire : (r : Resource) → Call
  release : (r : Resource) → Call
  terminate : (i : ℕ) → Call  -- thread `i` gets `ts_term`
  hand_out : Call  -- the whole array to the first thread
  qsort : Call  -- of the C library

-- which of the calls that may fail succeed
pub record Answers : Type 0 where
  pub al_init : Bool
  pub pool_calloc : Bool
  pub mutex_init : ℕ → Bool
  pub cond_init : ℕ → Bool
  pub thread_create : ℕ → Bool

-- The body of the loop over the pool, from the answers for the slot `i`, with what the rounds after it give.
unfoldable pub set_slot : Bool → Bool → Bool → ℕ → List Call × Bool × ℕ → List Call × Bool × ℕ
set_slot false cond_fine created i rest = ([], false, i)
set_slot true false created i rest = (acquire (mtx_st i) ∷ (release (mtx_st i) ∷ []), false, i)
set_slot true true false i rest = (
  acquire (mtx_st i) ∷ (acquire (cond_st i) ∷ (release (mtx_st i) ∷ (release (cond_st i) ∷ []))),
  false,
  i,
)
set_slot true true true i (calls, fine, last) =
    (acquire (mtx_st i) ∷ (acquire (cond_st i) ∷ (acquire (thread i) ∷ calls)), fine, last)

-- The loop over the pool, with the slots that are left: its calls, whether it ended without a failure, and
-- `islot` then.
unfoldable pub set_up : Answers → ℕ → ℕ → List Call × Bool × ℕ
unfolding set_slot
set_up answers zero islot = ([], true, islot)
set_up answers (suc left) islot =
    set_slot (answers.mutex_init islot) (answers.cond_init islot) (answers.thread_create islot)
      islot (set_up answers left (islot + 1))

-- The loop at `f3`, with the slots that are left.
unfoldable pub take_down : Bool → ℕ → ℕ → List Call
take_down bailout zero i = []
take_down bailout (suc left) i =
    let rest =
      release (thread i)
      ∷ (release (mtx_st i) ∷ (release (cond_st i) ∷ take_down bailout left (i + 1))) in
    if bailout then terminate i ∷ rest else rest

-- after the loop over the pool: the first batch, and the labels from `f3` on
unfoldable pub finish : Bool → ℕ → List Call
unfolding take_down
finish fine islot =
    (if fine then hand_out ∷ [] else [])
    ++ (take_down (not fine) islot 0
        ++ (release pool ∷ (release mtx_al ∷ (if fine then [] else qsort ∷ []))))

unfoldable pub qsort_mt : Answers → ℕ → ℕ → ℕ → List Call
unfolding set_up finish
qsort_mt answers n forkelem maxthreads =
    let (calls, fine, islot) = set_up answers maxthreads 0 in
    if ltb n forkelem
    then qsort ∷ []
    else (if answers.al_init
        then acquire mtx_al
          ∷ (if answers.pool_calloc
              then acquire pool ∷ (calls ++ finish fine islot)
              else release mtx_al ∷ (qsort ∷ []))
        else qsort ∷ [])
