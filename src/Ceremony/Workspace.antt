-- ===== src/Ceremony/Workspace.antt =====
-- The files of a batch directory, by their relative path, and the PSBTs in them.
use Prim.Native.Char.{code}
use anzen.Prelude.{
  ℕ, String, ◌<>◌, Bool, ◌&&◌, ◌||◌, Option, none, some, List, [], ◌∷◌, Result, ok, err, ◌>>=◌,
  context, leb, ◌==◌, nat_eq, string_eq, if◌then◌else◌,
}
use anzen.Bitcoin.{Bitcoin, Psbt}

-- The contents of the files, the newest write first.
abbrev pub Workspace : Type 0
Workspace = List (String × String)

abbrev pub read_file : String → Workspace → Option String
read_file path [] = none
read_file path ((name, text) ∷ files) = if path == name then some text else read_file path files

-- How a call of `write_private` ends: the file is replaced at once or not at all, and the flush
-- after the replacement can fail as well. After either failure the caller returns.
pub data WriteOutcome : Type 0 where
  written : WriteOutcome
  refused : WriteOutcome
  unsynced : WriteOutcome

-- How the file system answers the write of each path.
abbrev pub Outcomes : Type 0
Outcomes = String → WriteOutcome

-- `char::is_whitespace`
abbrev pub is_whitespace : ℕ → Bool
is_whitespace c =
    (leb 9 c && leb c 13)
    || (c == 32
        || (c == 133
            || (c == 160
                || (c == 5760
                    || ((leb 8192 c && leb c 8202)
                        || (c == 8232
                            || (c == 8233 || (c == 8239 || (c == 8287 || c == 12288)))))))))

unfoldable pub trim_start : String → String
trim_start String.[] = String.[]
trim_start (String.◌∷◌ c text) =
    let rest = trim_start text in if is_whitespace (code c) then rest else String.◌∷◌ c text

unfoldable pub trim_end : String → String
trim_end String.[] = String.[]
trim_end (String.◌∷◌ c text) = elim (trim_end text) [
  | String.[] ↦ if is_whitespace (code c) then String.[] else String.◌∷◌ c String.[]
  | String.◌∷◌ d rest ↦ String.◌∷◌ c (String.◌∷◌ d rest)
]

-- `str::trim`
abbrev pub trim : String → String
trim text = trim_end (trim_start text)

module _ (lib : Bitcoin) where
  unfoldable pub read_psbt : Workspace → String → Result Psbt
  unfolding trim_start trim_end
  read_psbt files path = do
    text ← context (read_file path files) "failed to read PSBT {}"
    context (lib.psbt_from_str (trim text)) "invalid PSBT in {}"

  -- The files after the call, beside its outcome.
  unfoldable pub write_psbt : Outcomes → Workspace → String → Psbt → Workspace × Result (Unit {0})
  write_psbt outcomes files path psbt =
      let replaced = (path, lib.psbt_to_string psbt <> "\n") ∷ files in
      elim (outcomes path) [
        | written ↦ (replaced, ok tt)
        | refused ↦ (files, err "failed to write {}")
        | unsynced ↦ (replaced, err "failed to sync {}")
      ]
