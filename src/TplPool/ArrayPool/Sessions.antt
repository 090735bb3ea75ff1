-- ===== src/TplPool/ArrayPool/Sessions.antt =====
-- An array pool over any sequence of calls.
use zephyr_server.Common.{ℕ, ◌+◌, ◌≡◌, ltb, Option, none, List, [], ◌∷◌, length}
use zephyr_server.TplList.Whole.{Whole}
use zephyr_server.TplPool.Items.{count, range, Call, get, release}
use zephyr_server.TplPool.ArrayPool.{ArrayPool, get_mem, release_mem}

-- The list holds the free nodes, and no node is lost, or both free and handed out.
record Manages (p : ArrayPool) (n : ℕ) (xs us : List ℕ) : Type 0 where
  whole : Whole p.free p.links xs
  marked : (a : ℕ) → p.belongs a ≡ ltb 0 (count a xs)
  used : p.used_size ≡ length us
  items : (a : ℕ) → count a xs + count a us ≡ count a (range 0 n)
  total : length xs + length us ≡ n
  sized : p.max_size ≡ n

perform : Call → ArrayPool → Option ℕ × ArrayPool
perform get p = get_mem p
perform (release r) p = (none, release_mem r p)

pub run : List Call → ArrayPool → List (Option ℕ) × ArrayPool
unfolding perform
run [] p = ([], p)
run (c ∷ cs) p = let (o, p') = perform c p in let (os, p'') = run cs p' in (o ∷ os, p'')
