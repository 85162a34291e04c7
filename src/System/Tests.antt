-- ===== src/System/Tests.antt =====
-- Runs and witnesses of hash_modify.
use hetero_indexing.Prelude.{◌+◌, ◌*◌, ◌≡◌, refl, none, some, arith, if◌then◌else◌, []}
use hetero_indexing.Common.{Murmur}
use hetero_indexing.Hash.{construct, insert_nocheck, find, place}
use hetero_indexing.Hash.Table.{view, IsValid, construct-IsValid, insert_nocheck_lem}
use hetero_indexing.Tree.{empty_tree}
use hetero_indexing.System.{IndexSys, hash_insert, ok, hash_bin_full}
use hetero_indexing.System.Insert.{hash_insert_absent, Overwrites, hash_insert_present}

-- A stand-in for the hash.
abbrev adding : Murmur
adding = record { x64_128 = λ k s. (s, k + 2 * s); x64_64 = λ k s. k + 2 * s; upper = λ k s. refl }

abbrev fresh : IndexSys
fresh = record {
  has_special_key = λ _. 0;
  special_key_val = λ _. 0;
  cm = record { width = 4; depth = 2; seed = 0; shift = 2; counts = [] };
  hash = construct 0 2 9;
  tree = empty_tree;
}

empty_table : view adding fresh.hash 7 ≡ none
unfolding construct find
empty_table = refl

hash_insert_absent_example :
    let r = insert_nocheck adding fresh.hash 7 70 in
    hash_insert adding fresh 7 70
    ≡ (record fresh { hash = r.0 }, (if r.1 then ok else hash_bin_full), none)
hash_insert_absent_example = hash_insert_absent adding fresh 7 70 empty_table

abbrev with_seven : IndexSys
with_seven = record fresh { hash = (insert_nocheck adding fresh.hash 7 70).0 }

held : view adding with_seven.hash 7 ≡ some 70
unfolding construct insert_nocheck place find
held = refl

with_seven-IsValid : IsValid adding with_seven.hash
unfolding insert_nocheck construct place
with_seven-IsValid =
    (insert_nocheck_lem adding (construct-IsValid adding 0 1 9 (omega arith)).0 7 70 (omega arith)
      empty_table (omega arith)).0

hash_insert_present_example : Overwrites adding with_seven 7 71 (hash_insert adding with_seven 7 71)
hash_insert_present_example = hash_insert_present adding with_seven 7 71 with_seven-IsValid held
