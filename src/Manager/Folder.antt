-- ===== src/Manager/Folder.antt =====
-- Folders of core/src/connection_manager.rs: the walk, the offer of the whole, and then one offer for
-- each file. What `std::path` makes of a path and the listing of a directory are parameters. `uuids`
-- gives the ids of a transfer and of its message, by the files that are left.
pub mod Walk
pub mod Unstored
use zao_p2p.Prelude.{
  ℕ, zero, suc, ◌+◌, ◌%◌, ◌^◌, String, Bool, true, false, Option, none, some, List, [], ◌∷◌, ◌++◌,
  length, if◌then◌else◌, str_eq,
}
use zao_p2p.Prelude.Maps.{Map, lookup, insert, remove}
use zao_p2p.CoreError.{CoreError, Result, ok, err, ◌>>=◌, ok_or, io, invalid_state}
use zao_p2p.Protocol.{FolderFileEntry, FolderOffer, folder_offer}
use zao_p2p.Transfer.Files.{Disk, path}
use zao_p2p.Manager.{World, Manager, PendingFolderOffer, send_to}
use zao_p2p.Manager.Offers.{OfferedFile, send_file}

-- `Path::file_name`, `strip_prefix`, and the extension in lower case, each as text; `replace` is
-- the one of `\` by `/`.
pub record Paths : Type 0 where
  pub file_name : String → Option String
  pub strip_prefix : String → String → Option String
  pub lower_extension : String → String
  pub replace : String → String

pub data FileType : Type 0 where
  is_file is_dir is_symlink : FileType

unfoldable pub relative_path_string : Paths → String → String → String
relative_path_string paths file_path root = elim (paths.strip_prefix file_path root) [
  | none ↦ file_path
  | some p ↦ paths.replace p
]

abbrev mime_types : List (String × String)
mime_types =
    ("jpg", "image/jpeg")
    ∷ ("jpeg", "image/jpeg")
    ∷ ("png", "image/png")
    ∷ ("gif", "image/gif")
    ∷ ("webp", "image/webp")
    ∷ ("mp4", "video/mp4")
    ∷ ("mov", "video/quicktime")
    ∷ ("mkv", "video/x-matroska")
    ∷ ("webm", "video/webm")
    ∷ ("pdf", "application/pdf")
    ∷ ("doc", "application/msword")
    ∷ ("docx", "application/vnd.openxmlformats-officedocument.wordprocessingml.document")
    ∷ ("xls", "application/vnd.ms-excel")
    ∷ ("xlsx", "application/vnd.openxmlformats-officedocument.spreadsheetml.sheet")
    ∷ ("ppt", "application/vnd.ms-powerpoint")
    ∷ ("pptx", "application/vnd.openxmlformats-officedocument.presentationml.presentation")
    ∷ ("txt", "text/plain")
    ∷ ("zip", "application/zip")
    ∷ ("apk", "application/vnd.android.package-archive")
    ∷ []

unfoldable pub mime_guess_from_extension : Paths → String → String
unfolding lookup
mime_guess_from_extension paths p = elim (lookup (paths.lower_extension p) mime_types) [
  | none ↦ "application/octet-stream"
  | some mime ↦ mime
]

-- The entries of one directory: its directories go on the stack, and its files to the files.
unfoldable pub scan :
    List (String × FileType) → List String → List String → List String × List String
scan [] stack files = (stack, files)
scan ((p, is_dir) ∷ entries) stack files = scan entries (p ∷ stack) files
scan ((p, is_file) ∷ entries) stack files = scan entries stack (files ++ (p ∷ []))
scan ((p, is_symlink) ∷ entries) stack files = scan entries stack files

-- The loop, with fuel for the directories; `none` is fuel that ran out.
unfoldable pub walk :
    (String → Result (List (String × FileType)))
    → ℕ
    → List String
    → List String
    → Option (Result (List String))
unfolding scan
walk read_dir fuel [] files = some (ok files)
walk read_dir zero (current ∷ stack) files = none
walk read_dir (suc fuel) (current ∷ stack) files = elim (read_dir current) [
  | err e ↦ some (err e)
  | ok entries ↦ walk read_dir fuel (scan entries stack files).0 (scan entries stack files).1
]

unfoldable pub collect_files_recursive :
    (String → Result (List (String × FileType))) → ℕ → String → Option (Result (List String))
unfolding walk
collect_files_recursive read_dir fuel dir = walk read_dir fuel (dir ∷ []) []

-- The manifest of the files and their total size, on `u64`.
unfoldable pub manifest_of : Paths → Disk → String → List String → Result (List FolderFileEntry × ℕ)
unfolding relative_path_string mime_guess_from_extension
manifest_of paths disk root [] = ok ([], 0)
manifest_of paths disk root (file_path ∷ files) = do
  file ← ok_or (lookup file_path disk) io
  (entries, total) ← manifest_of paths disk root files
  ok (
    record {
      relative_path = relative_path_string paths file_path root;
      file_size = length file;
      mime_type = mime_guess_from_extension paths file_path;
    }
        ∷ entries,
    (length file + total) % 2 ^ 64,
  )

abbrev pub or_else : Option String → String → String
or_else none d = d
or_else (some t) d = t

module _ (w : World) where
  -- `send_folder` up to its offer; `files` is what the walk gives. The result is the manifest.
  unfoldable pub offer_folder :
      Manager w
      → Paths
      → String
      → String
      → String
      → String
      → Result (List String)
      → Manager w × Result (List FolderFileEntry)
  unfolding manifest_of send_to
  offer_folder m paths peer folder conversation_id batch (err e) = (m, err e)
  offer_folder m paths peer folder conversation_id batch (ok []) =
      (m, err (invalid_state "folder contains no files to send"))
  offer_folder m paths peer folder conversation_id batch (ok (f ∷ files)) =
      elim (manifest_of paths m.disk folder (f ∷ files)) [
        | err e ↦ (m, err e)
        | ok (manifest, total) ↦
            (let (m', sent) =
                send_to w
                  (record m {
                    pending_folder_offers =
                        insert batch (record { accept_tx = true }) m.pending_folder_offers;
                  })
                  peer
                  (folder_offer (record {
                    folder_batch_id = batch;
                    conversation_id = conversation_id;
                    folder_name = or_else (paths.file_name folder) "folder";
                    total_files = length (f ∷ files);
                    total_size = total;
                    files = manifest;
                  })) in
              (m', sent >>= λ u. ok manifest))
      ]

  abbrev file_in_folder : Paths → String → String → String → FolderFileEntry → String → OfferedFile
  file_in_folder paths conversation_id batch file_path entry message_id = record {
    source = path file_path;
    file_name = or_else (paths.file_name file_path) "file";
    file_size = entry.file_size;
    mime_type = entry.mime_type;
    message_id = message_id;
    conversation_id = conversation_id;
    relative_path = entry.relative_path;
    folder_batch_id = some batch;
  }

  abbrev offered : String → Result String → List (String × String) → List (String × String)
  offered relative_path (ok transfer_id) results = (relative_path, transfer_id) ∷ results
  offered relative_path (err e) results = results

  -- The loop over the files and the manifest; a file whose offer fails is passed over.
  unfoldable pub send_files :
      Manager w
      → Paths
      → String
      → String
      → String
      → List String
      → List FolderFileEntry
      → (ℕ → String × String)
      → ℕ
      → ℕ
      → Manager w × List (String × String)
  unfolding send_file
  send_files m paths peer conversation_id batch [] manifest uuids now now_unix = (m, [])
  send_files m paths peer conversation_id batch (f ∷ files) [] uuids now now_unix = (m, [])
  send_files m paths peer conversation_id batch (f ∷ files) (entry ∷ manifest) uuids now now_unix =
      let (m', r) =
        send_file w m peer
          (file_in_folder paths conversation_id batch f entry (uuids (length files)).1)
          (uuids (length files)).0 now now_unix in
      let (m'', results) =
        send_files m' paths peer conversation_id batch files manifest uuids now now_unix in
      (m'', offered entry.relative_path r results)

  abbrev any_offered : List (String × String) → Result (List (String × String))
  any_offered [] = err (invalid_state "no files in folder could be offered (all failed)")
  any_offered (x ∷ results) = ok (x ∷ results)

  -- The rest of `send_folder`, once the decision is there or the time is over.
  unfoldable pub send_folder_decided :
      Manager w
      → Paths
      → String
      → String
      → String
      → List String
      → List FolderFileEntry
      → Option Bool
      → (ℕ → String × String)
      → ℕ
      → ℕ
      → Manager w × Result (List (String × String))
  unfolding send_files
  send_folder_decided m paths peer conversation_id batch files manifest decision uuids now
        now_unix =
      let m' : Manager w = record m {
        pending_folder_offers = remove batch m.pending_folder_offers;
      } in
      elim decision [
        | some true ↦
            (let (m'', results) =
                send_files m' paths peer conversation_id batch files manifest uuids now now_unix in
              (m'', any_offered results))
        | _ ↦ (m', err (invalid_state "folder offer was rejected or timed out"))
      ]
