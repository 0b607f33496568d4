-- ===== src/Manager/Folder/Walk.antt =====
-- The walk of a folder, against the tree that it is.
use zao_p2p.Prelude.{
  ℕ, zero, suc, ◌+◌, ◌≤◌, ◌≡◌, refl, ap, sym, ◌∙◌, String, some, List, [], ◌∷◌, ◌++◌, arith,
}
use mathlib.Core.List.{append_assoc, append-nil}
use zao_p2p.CoreError.{Result, ok}
use zao_p2p.Manager.Folder.{
  FileType, is_file, is_dir, is_symlink, scan, walk, collect_files_recursive,
}

-- What a directory holds, and what its directories hold.
pub data Folder : Type 0 where
  nothing : Folder
  file_then : String → Folder → Folder
  link_then : String → Folder → Folder
  dir_then : String → Folder → Folder → Folder

abbrev pub listing : Folder → List (String × FileType)
listing nothing = []
listing (file_then p rest) = (p, is_file) ∷ listing rest
listing (link_then p rest) = (p, is_symlink) ∷ listing rest
listing (dir_then p sub rest) = (p, is_dir) ∷ listing rest

-- The files of the directory itself, in order.
abbrev pub own_files : Folder → List String
own_files nothing = []
own_files (file_then p rest) = p ∷ own_files rest
own_files (link_then p rest) = own_files rest
own_files (dir_then p sub rest) = own_files rest

-- The files below its directories, the last directory first.
abbrev pub deeper_files : Folder → List String
deeper_files nothing = []
deeper_files (file_then p rest) = deeper_files rest
deeper_files (link_then p rest) = deeper_files rest
deeper_files (dir_then p sub rest) = deeper_files rest ++ (own_files sub ++ deeper_files sub)

abbrev pub all_files : Folder → List String
all_files d = own_files d ++ deeper_files d

-- The number of directories below.
abbrev pub dirs_below : Folder → ℕ
dirs_below nothing = 0
dirs_below (file_then p rest) = dirs_below rest
dirs_below (link_then p rest) = dirs_below rest
dirs_below (dir_then p sub rest) = suc (dirs_below sub) + dirs_below rest

-- `read_dir` lists each directory below as the tree has it.
abbrev pub Lists : (String → Result (List (String × FileType))) → Folder → Type 0
Lists read_dir nothing = Unit
Lists read_dir (file_then p rest) = Lists read_dir rest
Lists read_dir (link_then p rest) = Lists read_dir rest
Lists read_dir (dir_then p sub rest) =
    (read_dir p ≡ ok (listing sub)) × (Lists read_dir sub × Lists read_dir rest)

-- Directories on the stack, with what they hold.
abbrev names : List (String × Folder) → List String
names [] = []
names ((p, d) ∷ ds) = p ∷ names ds

abbrev files_of : List (String × Folder) → List String
files_of [] = []
files_of ((p, d) ∷ ds) = all_files d ++ files_of ds

abbrev dirs_of : List (String × Folder) → ℕ
dirs_of [] = 0
dirs_of ((p, d) ∷ ds) = suc (dirs_below d) + dirs_of ds

abbrev push_dirs : Folder → List (String × Folder) → List (String × Folder)
push_dirs nothing ds = ds
push_dirs (file_then p rest) ds = push_dirs rest ds
push_dirs (link_then p rest) ds = push_dirs rest ds
push_dirs (dir_then p sub rest) ds = push_dirs rest ((p, sub) ∷ ds)

module _ (read_dir : String → Result (List (String × FileType))) where
  abbrev AllListed : List (String × Folder) → Type 0
  AllListed [] = Unit
  AllListed ((p, d) ∷ ds) = (read_dir p ≡ ok (listing d)) × (Lists read_dir d × AllListed ds)

  AllListed-push_dirs :
      (d : Folder) (ds : List (String × Folder))
      → Lists read_dir d
      → AllListed ds
      → AllListed (push_dirs d ds)
  AllListed-push_dirs nothing ds l a = a
  AllListed-push_dirs (file_then p rest) ds l a = AllListed-push_dirs rest ds l a
  AllListed-push_dirs (link_then p rest) ds l a = AllListed-push_dirs rest ds l a
  AllListed-push_dirs (dir_then p sub rest) ds (e, (l, l')) a =
      AllListed-push_dirs rest ((p, sub) ∷ ds) l' (e, (l, a))

scan-listing :
    (d : Folder) (ds : List (String × Folder)) (files : List String)
    → scan (listing d) (names ds) files ≡ (names (push_dirs d ds), files ++ own_files d)
unfolding scan
scan-listing nothing ds files = ap (λ l. (names ds, l)) (sym (append-nil files))
scan-listing (file_then p rest) ds files =
    scan-listing rest ds (files ++ (p ∷ []))
    ∙ ap (λ l. (names (push_dirs rest ds), l)) (append_assoc files (p ∷ []) (own_files rest))
scan-listing (link_then p rest) ds files = scan-listing rest ds files
scan-listing (dir_then p sub rest) ds files = scan-listing rest ((p, sub) ∷ ds) files

files_of-push_dirs :
    (d : Folder) (ds : List (String × Folder))
    → files_of (push_dirs d ds) ≡ deeper_files d ++ files_of ds
files_of-push_dirs nothing ds = refl
files_of-push_dirs (file_then p rest) ds = files_of-push_dirs rest ds
files_of-push_dirs (link_then p rest) ds = files_of-push_dirs rest ds
files_of-push_dirs (dir_then p sub rest) ds =
    files_of-push_dirs rest ((p, sub) ∷ ds)
    ∙ sym (append_assoc (deeper_files rest) (all_files sub) (files_of ds))

dirs_of-push_dirs :
    (d : Folder) (ds : List (String × Folder))
    → dirs_of (push_dirs d ds) ≡ dirs_below d + dirs_of ds
dirs_of-push_dirs nothing ds = omega arith
dirs_of-push_dirs (file_then p rest) ds = dirs_of-push_dirs rest ds
dirs_of-push_dirs (link_then p rest) ds = dirs_of-push_dirs rest ds
dirs_of-push_dirs (dir_then p sub rest) ds = dirs_of-push_dirs rest ((p, sub) ∷ ds) ∙ omega arith

walk-AllListed :
    (read_dir : String → Result (List (String × FileType))) (fuel : ℕ) (ds : List (String × Folder))
    (files : List String)
    → AllListed read_dir ds
    → dirs_of ds ≤ fuel
    → walk read_dir fuel (names ds) files ≡ some (ok (files ++ files_of ds))
unfolding walk
walk-AllListed read_dir fuel [] files a enough = ap (λ l. some (ok l)) (sym (append-nil files))
walk-AllListed read_dir zero ((p, d) ∷ ds) files a enough = absurd (omega arith)
walk-AllListed read_dir (suc fuel) ((p, d) ∷ ds) files (e, (l, a)) enough =
    rw (walk, e, scan-listing d ds files)
      (walk-AllListed read_dir fuel (push_dirs d ds) (files ++ own_files d)
          (AllListed-push_dirs read_dir d ds l a) (omega (arith, dirs_of-push_dirs d ds))
        ∙ ap (λ l. some (ok l)) (simp (files_of-push_dirs d ds, append_assoc)))

-- Of a folder that is a finite tree, each of whose directories can be listed, the walk gives every
-- file, none of the links, those of a directory before those below it and the last of its
-- directories first. It needs fuel for each directory once.
pub collect_files_recursive_lem :
    (read_dir : String → Result (List (String × FileType))) (fuel : ℕ) (dir : String) (d : Folder)
    → read_dir dir ≡ ok (listing d)
    → Lists read_dir d
    → suc (dirs_below d) ≤ fuel
    → collect_files_recursive read_dir fuel dir ≡ some (ok (all_files d))
unfolding collect_files_recursive
collect_files_recursive_lem read_dir fuel dir d here below enough =
    walk-AllListed read_dir fuel ((dir, d) ∷ []) [] (here, (below, tt)) (omega arith)
    ∙ ap (λ l. some (ok l)) (append-nil (all_files d))
