-- ===== src/Qsort.antt =====
-- The quicksort of hw1/qsort-mt.c, which hw3/work-steal-qsort/src/main.c has too. Memory is a map from
-- the numbers of elements; a pointer is the number of the element that it points to, and an exchange of
-- `es` bytes is the exchange of two elements. The byte counts in the `int` variables `d` and `r` are wrapped
-- to 32 bits; one that `es` does not divide, after a wrap, is rounded down to elements.
pub mod Fits
pub mod Shuffle
pub mod Exchange
pub mod Order
pub mod Insertion
pub mod Limited
pub mod Scan
pub mod Loops
pub mod Partition
pub mod Gather
pub mod Parts
pub mod Split
pub mod Pivot
pub mod Correct
pub mod Lists
pub mod Numbers
pub mod Pool
pub mod Contract
pub mod Tests
use linux_summer.Prelude.{
  ℕ, zero, suc, ◌+◌, ◌-◌, ◌*◌, ◌/◌, ◌%◌, ◌^◌, Bool, true, false, not, ◌&&◌, ◌==◌, ltb, leb,
  if◌then◌else◌, Option, none, some, ◌>>=◌, List, [], ◌∷◌, ◌++◌,
}
use linux_summer.Prelude.Int.{ℤ, pos, ◌-ℤ◌, pos_part, neg_part, is_neg, is_pos, is_zero}

module _ {E : Type 0} where
  -- `swap(a, b)`
  pub swap : (ℕ → E) → ℕ → ℕ → ℕ → E
  swap m i j k = if k == j then m i else (if k == i then m j else m k)

  -- `vecswap(a, b, n)` of `n` elements, one after the other
  pub vec_swap : ℕ → ℕ → ℕ → (ℕ → E) → ℕ → E
  unfolding swap
  vec_swap zero i j m = m
  vec_swap (suc n) i j m = vec_swap n (i + 1) (j + 1) (swap m i j)

-- The partition's variables. `swapped` is `swap_cnt != 0`.
pub record Cut (E : Type 0) : Type 0 where
  pub mem : ℕ → E
  pub pa : ℕ
  pub pb : ℕ
  pub pc : ℕ
  pub pd : ℕ
  pub swapped : Bool

-- `min(a, b)`
abbrev pub min : ℕ → ℕ → ℕ
min a b = if ltb a b then a else b

-- The elements that an `int` counts, after it was given `k * es`: the bytes wrap to 32 bits with a sign. Past
-- the wrap the bytes need not be a multiple of `es`, and the rest of the division is dropped.
unfoldable pub int_elements : ℕ → ℕ → ℤ
int_elements es k =
    let bits = k * es % 2 ^ 32 in
    if ltb bits (2 ^ 31) then pos (bits / es) else pos 0 -ℤ pos ((2 ^ 32 - bits) / es)

-- a pointer plus such an `int`, and minus it
abbrev pub forth : ℕ → ℤ → ℕ
forth p d = p + pos_part d - neg_part d

abbrev pub back : ℕ → ℤ → ℕ
back p d = p + neg_part d - pos_part d

module _ {E : Type 0} (cmp : E → E → ℤ) where
  pub med3 : (ℕ → E) → ℕ → ℕ → ℕ → ℕ
  med3 m a b c =
      if is_neg (cmp (m a) (m b))
      then (if is_neg (cmp (m b) (m c)) then b else (if is_neg (cmp (m a) (m c)) then c else a))
      else (if is_pos (cmp (m b) (m c)) then b else (if is_neg (cmp (m a) (m c)) then a else c))

  -- The element that `pm` points to before `swap(a, pm)`, for n >= 7.
  pub pivot : ℕ → (ℕ → E) → ℕ → ℕ → ℕ
  unfolding med3 int_elements
  pivot es m a n =
      let pm = a + n / 2 in
      let pn = a + (n - 1) in
      let d = int_elements es (n / 8) in
      let twice = int_elements es (2 * (n / 8)) in
      let pl' = med3 m a (forth a d) (forth a twice) in
      let pm' = med3 m (back pm d) pm (forth pm d) in
      let pn' = med3 m (back pn twice) (back pn d) pn in
      if ltb 7 n then (if ltb 40 n then med3 m pl' pm' pn' else med3 m a pm pn) else pm

  -- the body of the first `while`, and its test
  pub up_step : Cut E → ℕ → Cut E
  unfolding swap
  up_step c a =
      if is_zero (cmp (c.mem c.pb) (c.mem a))
      then record c { mem = swap c.mem c.pa c.pb; pa = c.pa + 1; pb = c.pb + 1; swapped = true }
      else record c { pb = c.pb + 1 }

  abbrev pub up_test : Cut E → ℕ → Bool
  up_test c a = leb c.pb c.pc && not (is_pos (cmp (c.mem c.pb) (c.mem a)))

  pub scan_up : ℕ → Cut E → ℕ → Cut E
  unfolding up_step
  scan_up zero c a = c
  scan_up (suc fuel) c a = elim (up_test c a) [ true ↦ scan_up fuel (up_step c a) a | false ↦ c ]

  -- the second `while`
  pub down_step : Cut E → ℕ → Cut E
  unfolding swap
  down_step c a =
      if is_zero (cmp (c.mem c.pc) (c.mem a))
      then record c { mem = swap c.mem c.pc c.pd; pd = c.pd - 1; pc = c.pc - 1; swapped = true }
      else record c { pc = c.pc - 1 }

  abbrev pub down_test : Cut E → ℕ → Bool
  down_test c a = leb c.pb c.pc && not (is_neg (cmp (c.mem c.pc) (c.mem a)))

  pub scan_down : ℕ → Cut E → ℕ → Cut E
  unfolding down_step
  scan_down zero c a = c
  scan_down (suc fuel) c a = elim (down_test c a) [
    | true ↦ scan_down fuel (down_step c a) a
    | false ↦ c
  ]

  -- `for (;;)`; a while loop takes at most `n` rounds
  pub partition : ℕ → ℕ → Cut E → ℕ → Option (Cut E)
  unfolding scan_up scan_down swap
  partition zero n c a = none
  partition (suc fuel) n c a =
      let d = scan_down n (scan_up n c a) a in
      let rest =
        partition fuel n
          (record d { mem = swap d.mem d.pb d.pc; pb = d.pb + 1; pc = d.pc - 1; swapped = true })
          a in
      if ltb d.pc d.pb then some d else rest

  -- The inner `for` of the insertion sort, with `k` for pl - a.
  pub sink : ℕ → ℕ → (ℕ → E) → ℕ → E
  unfolding swap
  sink zero a m = m
  sink (suc k) a m =
      let rest = sink k a (swap m (a + suc k) (a + k)) in
      if is_pos (cmp (m (a + k)) (m (a + suc k))) then rest else m

  -- The outer `for`: `rounds` more, from pm = a + k on.
  pub insert_from : ℕ → ℕ → ℕ → (ℕ → E) → ℕ → E
  unfolding sink
  insert_from zero k a m = m
  insert_from (suc rounds) k a m = insert_from rounds (k + 1) a (sink k a m)

  -- The insertion sort that gives up, at once with a negative `r`: `room` more swaps are allowed, and false stands for
  -- `goto nevermind`.
  pub sink_limited : ℕ → ℕ → ℕ → (ℕ → E) → (ℕ → E) × ℕ × Bool
  unfolding swap
  sink_limited zero a room m = (m, room, true)
  sink_limited (suc k) a room m =
      let m' = swap m (a + suc k) (a + k) in
      let rest = sink_limited k a (room - 1) m' in
      if is_pos (cmp (m (a + k)) (m (a + suc k)))
      then (if room == 0 then (m', 0, false) else rest)
      else (m, room, true)

  pub insert_limited : ℕ → ℕ → ℕ → ℕ → (ℕ → E) → (ℕ → E) × Bool
  unfolding sink_limited
  insert_limited zero k a room m = (m, true)
  insert_limited (suc rounds) k a room m =
      let (m', room', going) = sink_limited k a room m in
      let rest = insert_limited rounds (k + 1) a room' m' in if going then rest else (m', false)

-- `vecswap(a, pb - r, r)` and `vecswap(pb, pn - s, s)`
pub swap_ends : {E : Type 0} → Cut E → ℕ → ℕ → ℕ → ℕ → ℕ → E
unfolding vec_swap
swap_ends c a n r s = vec_swap s c.pb (a + n - s) (vec_swap r a (c.pb - r) c.mem)

-- The two calls of `vecswap` that bring the equal elements to the middle. They do nothing with a negative
-- count.
pub gather : {E : Type 0} → ℕ → Cut E → ℕ → ℕ → ℕ → E
unfolding int_elements swap_ends
gather es c a n =
    swap_ends c a n (pos_part (int_elements es (min (c.pa - a) (c.pb - c.pa))))
      (pos_part (int_elements es (min (c.pd - c.pc) (a + n - c.pd - 1))))

-- a part of the array: where it starts, and its number of elements
abbrev pub Part : Type 0
Part = ℕ × ℕ

abbrev pub Outcome : Type 0 → Type 0
Outcome E = Option ((ℕ → E) × List Part)

module _ {E : Type 0} where
  -- From `nevermind` on. `sort` is the recursive call, `forks a nl nr` says whether another thread
  -- is given the left part; the parts that were given away are the result's list.
  pub split :
      (ℕ → ℕ → ℕ → Bool) → ((ℕ → E) → ℕ → ℕ → Outcome E) → (ℕ → E) → ℕ → ℕ → ℕ → ℕ → Outcome E
  split forks sort m a n nl nr = do
    (m', ls) ←
        (if forks a nl nr
          then some (m, (a, nl) ∷ [])
          else (if nl == 0 then some (m, []) else sort m a nl))
    (m'', rs) ← (if nr == 0 then some (m', []) else sort m' (a + n - nr) nr)
    some (m'', ls ++ rs)

-- `qsort_algo` on the `n` elements from `a` on; the fuel counts the nested calls and the jumps to
-- `top`, and `none` means that it ran out.
pub qsort_algo :
    {E : Type 0} → (E → E → ℤ) → ℕ → (ℕ → ℕ → ℕ → Bool) → ℕ → (ℕ → E) → ℕ → ℕ → Outcome E
unfolding swap int_elements pivot partition insert_from insert_limited gather split
qsort_algo cmp es forks zero m a n = none
qsort_algo cmp es forks (suc fuel) m a n =
    let sort = qsort_algo cmp es forks fuel in
    if ltb n 7 then some (insert_from cmp (n - 1) 1 a m, []) else (do
      c ←
          partition cmp (n + 1) n
            (record {
              mem = swap m a (pivot cmp es m a n);
              pa = a + 1;
              pb = a + 1;
              pc = a + (n - 1);
              pd = a + (n - 1);
              swapped = false;
            })
            a
      let m' = gather es c a n
      let tried = insert_limited cmp (n - 1) 1 a (pos_part (int_elements 1 (1 + n / 4))) m'
      if c.swapped
          then split forks sort m' a n (c.pb - c.pa) (c.pd - c.pc)
          else (if tried.1
              then some (tried.0, [])
              else split forks sort tried.0 a n (c.pb - c.pa) (c.pd - c.pc)))

-- `qsort_algo` of hw1/qsort-mt.c, where `idle` says which calls of allocate_thread find a thread.
pub mt_forks : ℕ → (ℕ → ℕ → Bool) → ℕ → ℕ → ℕ → Bool
mt_forks forkelem idle a nl nr = ltb forkelem nl && (ltb forkelem nr && idle a nl)

-- `qsort_algo` of hw3/work-steal-qsort/src/main.c, which has the same text but for this condition
pub task_algo : {E : Type 0} → (E → E → ℤ) → ℕ → ℕ → (ℕ → E) → ℕ → ℕ → Outcome E
unfolding qsort_algo
task_algo cmp es fuel m a n = qsort_algo cmp es (λ b nl nr. ltb 100 nl && ltb 100 nr) fuel m a n
