-- ===== src/Cgroup/Examples.antt =====
-- An evacuation of two processes, the move of one of which fails.
use rootlesskit.Base.{if◌then◌else◌, pos, ◌≡◌, refl, inl, List, [], ◌∷◌, ◌++◌, Result, ok, err}
use rootlesskit.Text.{Bytes, codes, str_eq}
use rootlesskit.Text.Decimal.{itoa}
use rootlesskit.Cgroup.{
  System, Call, get_mounts, read_file, mkdir_all, write_file, evacuate_cgroup2,
}
use rootlesskit.Cgroup.Evacuated.{Moved, evacuate_cgroup2-Moved}

abbrev answer_read : Bytes → Result Bytes Bytes
answer_read path =
    if str_eq path (codes "/proc/7/cgroup")
    then ok (codes "1:name=systemd:/a" ++ 10 ∷ codes "0::/g" ++ 10 ∷ [])
    else if str_eq path (codes "/sys/fs/cgroup//g/cgroup.procs")
    then ok (codes "7" ++ 10 ∷ codes "0" ++ 10 ∷ codes "8" ++ 10 ∷ [])
    else ok (codes "cpu memory")

abbrev answers : List Call → Call → Result Bytes Bytes
answers log (read_file path) = answer_read path
answers log (write_file path text) = if str_eq text (codes "8") then err (codes "EBUSY") else ok []
answers log c = ok []

abbrev machine : System
machine = record {
  kernel = answers;
  mounts = λ log. codes "/sys/fs/cgroup" ∷ [];
  join = λ a b. a ++ b'/' ∷ b;
  pid = pos 7;
}

abbrev evacuated : List Call
evacuated = (evacuate_cgroup2 machine (codes "evac") []).1

all_calls :
    evacuated
    ≡ write_file (codes "/sys/fs/cgroup//g/cgroup.subtree_control") (codes "+memory")
      ∷ write_file (codes "/sys/fs/cgroup//g/cgroup.subtree_control") (codes "+cpu")
      ∷ read_file (codes "/sys/fs/cgroup//g/cgroup.controllers")
      ∷ write_file (codes "/sys/fs/cgroup//g/evac/cgroup.procs") (codes "8")
      ∷ write_file (codes "/sys/fs/cgroup//g/evac/cgroup.procs") (codes "7")
      ∷ read_file (codes "/sys/fs/cgroup//g/cgroup.procs")
      ∷ mkdir_all (codes "/sys/fs/cgroup//g/evac")
      ∷ read_file (codes "/proc/7/cgroup")
      ∷ get_mounts
      ∷ []
unfolding evacuate_cgroup2 itoa
all_calls = refl

evacuate_cgroup2-Moved_example :
    Moved machine
      (codes "/sys/fs/cgroup//g")
      (codes "/sys/fs/cgroup//g/evac")
      (read_file (codes "/proc/7/cgroup") ∷ get_mounts ∷ [])
      evacuated
unfolding evacuate_cgroup2 itoa
evacuate_cgroup2-Moved_example =
    evacuate_cgroup2-Moved machine (codes "evac") [] evacuated [] (codes "/sys/fs/cgroup")
      (codes "/g") [] {a = tt} refl refl refl
      (inl (codes "1:name=systemd:/a" ∷ [], [] ∷ [], refl, (refl, tt))) refl
