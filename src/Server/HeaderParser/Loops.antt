-- ===== src/Server/HeaderParser/Loops.antt =====
-- A rule that is repeated, round by round.
use smart_web.Base.{
  ◌<◌, ◌^◌, ℕ, suc, ◌≡◌, refl, ap, ◌∙◌, arith, some, List, [], ◌++◌, append_assoc, Bytes, length,
}
use smart_web.Server.HeaderParser.{Scan, Rule, loop, star}
use smart_web.Server.HeaderParser.Words.{at, Refuses}
use smart_web.Server.HeaderParser.Consumes.{Kept, Consumes, silent-Consumes, execute-append}

module _ (b : Bytes) (fits : length b < 2 ^ 15) where
  -- the loop of a rule, with this fuel
  abbrev pub looped : ℕ → Rule → Rule
  looped fuel f s = some (loop fuel f s)

  pub loop-ends :
      (f : Rule) (fuel : ℕ) (rest : List ℕ) (v : Kept)
      → Refuses f rest
      → Consumes b fits (looped (suc fuel) f) [] rest v v
  unfolding loop
  loop-ends f fuel rest v out =
      silent-Consumes b fits (looped (suc fuel) f) [] rest v
        (λ n ts. rw (out n ts, loop) (ap (λ k. some (at k rest ts)) (omega arith)))

  loop-step :
      (f : Rule) (fuel : ℕ) (s t : Scan) → f s ≡ some t → loop (suc fuel) f s ≡ loop fuel f t
  unfolding loop
  loop-step f fuel s t h = rw (h, loop) refl

  pub loop-Consumes :
      (f : Rule) (fuel : ℕ) (w x rest : List ℕ) (v v' v'' : Kept)
      → Consumes b fits f w (x ++ rest) v v'
      → Consumes b fits (looped fuel f) x rest v' v''
      → Consumes b fits (looped (suc fuel) f) (w ++ x) rest v v''
  loop-Consumes f fuel w x rest v v' v'' h k pre tail ts p e i =
      let first = h pre (x ++ tail) ts p (e ∙ ap (λ y. pre ++ y) (append_assoc w x tail)) i in
      let second =
        k (pre ++ w) tail (ts ++ first.tokens) first.left (e ∙ simp append_assoc) first.keeps in
      record {
        tokens = first.tokens ++ second.tokens;
        left = second.left;
        takes =
            rw (append_assoc w x rest)
              (ap some (loop-step f fuel _ _ first.takes) ∙ second.takes ∙ simp append_assoc);
        executes =
            execute-append b fits first.tokens second.tokens p first.left first.executes
            ∙ second.executes;
        keeps = second.keeps;
      }

  pub star-Consumes :
      (f : Rule) (w rest : List ℕ) (v v' : Kept)
      → Consumes b fits (looped (suc (length (w ++ rest))) f) w rest v v'
      → Consumes b fits (star f) w rest v v'
  unfolding star
  star-Consumes f w rest v v' h pre tail ts p e i =
      let all = h pre tail ts p e i in
      record {
        tokens = all.tokens;
        left = all.left;
        takes = all.takes;
        executes = all.executes;
        keeps = all.keeps;
      }
