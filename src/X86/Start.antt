-- ===== src/X86/Start.antt =====
-- The list of threads that x86.py starts with is in order.
use life.Prelude.{
  ℕ, zero, suc, ◌+◌, ◌<◌, ◌≡◌, refl, sym, ap, ◌∙◌, false, some, List, [], ◌∷◌, All, length,
  get_elem?, ok, arith,
}
use life.X86.Cpu.{Cpu}
use life.X86.Threads.{Process, ProcList, upto, finalize, restore, restored}
use life.X86.Turns.{IsSound, undone, current-ok}

upto-get : (i n k p : ℕ) → get_elem? (upto i n) k ≡ some p → (p ≡ i + k) × (k < n)
unfolding upto
upto-get i zero k p e = absurd (cc)
upto-get i (suc n) zero p e = (let f : i ≡ p = cc in omega arith, omega arith)
upto-get i (suc n) (suc k) p e =
    let (a, b) = upto-get (i + 1) n k p e in (omega (arith, a), omega (arith, b))

get-upto : (i n k : ℕ) → k < n → get_elem? (upto i n) k ≡ some (i + k)
unfolding upto
get-upto i zero k lt = absurd (omega arith)
get-upto i (suc n) zero lt = ap some (omega arith)
get-upto i (suc n) (suc k) lt = get-upto (i + 1) n k (omega arith) ∙ ap some (omega arith)

undone-All : (l : List Process) → All (λ q. q.done ≡ false) l → undone l ≡ length l
undone-All [] h = refl
undone-All (q ∷ l) h = ground (arith, h.0, undone-All l h.1)

-- `finalize` with no schedule given, of a list with processes, none of them done: it raises nothing, the
-- processor is given to the first process, and the schedule, the count and the turn are in order.
pub finalize-IsSound :
    (q : Process) (qs : List Process) (c : Cpu) (l : ProcList)
    → l.plist ≡ q ∷ qs
    → l.procsched ≡ []
    → l.active ≡ length l.plist
    → All (λ p. p.done ≡ false) l.plist
    → (l' : ProcList) × (finalize [] l c ≡ ok (l', restored q c))
      × IsSound l'
      × (l'.plist ≡ l.plist)
unfolding finalize restore
finalize-IsSound q qs c l e s a d =
    let n : ℕ = length l.plist in
    let l' : ProcList = record l { procsched = upto 0 n; curr = 0 } in
    let pos : 0 < n = rw e (omega arith) in
    let here : get_elem? l.plist 0 ≡ some q = rw e in
    let first : get_elem? (upto 0 n) 0 ≡ some 0 = get-upto 0 n 0 pos in
    (
      l',
      rw (s, current-ok l' 0 q first here),
      record {
        list = record {
          exist = λ k p f. let (x, y) = upto-get 0 n k p f in omega arith;
          covered = λ p lt. (p, get-upto 0 n p lt ∙ ap some (omega arith));
          counted = a ∙ sym (undone-All l.plist d);
        };
        turn = record {
          index = 0;
          process = q;
          scheduled = first;
          listed = here;
          ready = ready q qs l.plist e d;
        };
      },
      refl,
    )
  where
    ready :
        (q : Process) (qs : List Process) (l : List Process)
        → l ≡ q ∷ qs
        → All (λ p. p.done ≡ false) l
        → q.done ≡ false
    ready q qs [] e d = absurd (cc)
    ready q qs (p ∷ ps) e d = let f : p ≡ q = cc in rw (← f) d.0
