-- ===== src/Base/ProcessInfo/Tests.antt =====
-- The theorems on base/ProcessInfo.cpp at texts of /proc, and how the functions read odd ones.
use libiak.Prelude.{◌≡◌, ◌++◌, refl, arith, [], ◌∷◌, some, take, codes, pos}
use libiak.Base.ProcessInfo.{proc_name, num_threads, host_name}
use libiak.Base.ProcessInfo.Stat.{proc_name-between, host_name-fits}

proc_name-between_example :
    proc_name (codes "12 " ++ b'(' ∷ (codes "a (b" ++ b')' ∷ codes " S 1")) ≡ some (codes "a (b")
proc_name-between_example =
    proc_name-between (codes "12 ") (codes "a (b") (codes " S 1") (refl, (refl, (refl, tt)))
      (refl, (refl, (refl, tt))) (refl, (refl, (refl, (refl, tt)))) (omega arith)

-- A program whose name has a `)`
proc_name_cut : proc_name (codes "12 (a)b) S 1") ≡ some (codes "a")
unfolding proc_name
proc_name_cut = refl

-- A program whose name has the key
num_threads_name : num_threads (codes "Name:\tThreads:7\nThreads:\t1\n") ≡ pos 7
unfolding num_threads
num_threads_name = refl

host_name-fits_example : host_name (take 64 (codes "box" ++ 0 ∷ [])) ≡ some (codes "box")
host_name-fits_example = host_name-fits (codes "box") (refl, (refl, (refl, tt)))
