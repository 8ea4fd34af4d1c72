-- ===== src/Daemon/FileSource.antt =====
-- include/FileSource.h and src/FileSource.cpp. The file is the lines that `std::getline` gives,
-- none if it cannot be opened, and stays the same. A line is its bytes.
use Prim.Native.String.{String}
use edge_ipc_daemon.Prelude.{
  ℕ, zero, suc, ◌≡◌, refl, Bool, true, false, not, List, [], ◌∷◌, Option, none, some, if◌then◌else◌,
  ◌==◌, Bool-cases, inl, inr,
}

-- `!line.empty() && line[0] != '#'`.
unfoldable pub is_data : List ℕ → Bool
is_data [] = false
is_data (c ∷ line) = not (c == 35)

-- The lambda `fetch`: the next line of data, and the lines after it.
unfoldable pub fetch : List (List ℕ) → Option (List ℕ × List (List ℕ))
fetch [] = none
fetch (line ∷ lines) = let rest = fetch lines in if is_data line then some (line, lines) else rest

-- The lines of data of a file.
abbrev pub data_lines : List (List ℕ) → List (List ℕ)
data_lines [] = []
data_lines (line ∷ lines) = if is_data line then line ∷ data_lines lines else data_lines lines

-- What `fetch` finds is the first line of data, before the others.
unfoldable pub Fetches : List (List ℕ) → Option (List ℕ × List (List ℕ)) → Type 0
Fetches lines none = data_lines lines ≡ []
Fetches lines (some (line, rest)) = data_lines lines ≡ line ∷ data_lines rest

skips-Fetches :
    (line : List ℕ) (lines : List (List ℕ)) (found : Option (List ℕ × List (List ℕ)))
    → is_data line ≡ false
    → Fetches lines found
    → Fetches (line ∷ lines) found
unfolding Fetches
skips-Fetches line lines none e h = rw e h
skips-Fetches line lines (some (next, rest)) e h = rw e h

pub fetch-Fetches : (lines : List (List ℕ)) → Fetches lines (fetch lines)
unfolding fetch Fetches
fetch-Fetches [] = refl
fetch-Fetches (line ∷ lines) = elim (Bool-cases (is_data line)) [
  | inl data_line ↦ rw data_line (rw data_line refl)
  | inr comment ↦ rw comment (skips-Fetches line lines (fetch lines) comment (fetch-Fetches lines))
]

-- `V` is `double`, and `stod` is `std::stod`, with `none` where it throws.
module _ {V : Type 0} (stod : List ℕ → Option V) where
  pub record FileSource : Type 0 where
    pub sensor_id : String
    pub loop : Bool
    pub file : List (List ℕ)
    -- the lines that were not read yet
    pub stream : List (List ℕ)

  unfoldable pub reopen : FileSource → FileSource
  reopen s = record s { stream = s.file }

  -- The constructor.
  unfoldable pub open_source : String → List (List ℕ) → Bool → FileSource
  open_source sensor_id file loop =
      reopen (record { sensor_id = sensor_id; loop = loop; file = file; stream = [] })

  -- The value of a frame, or `none` for `std::nullopt`, from what `fetch` gives.
  unfoldable pub parse_line : FileSource → Option (List ℕ × List (List ℕ)) → Option V × FileSource
  parse_line s none = (none, record s { stream = [] })
  parse_line s (some (line, lines)) = (stod line, record s { stream = lines })

  unfoldable pub read_first : FileSource → Option (List ℕ × List (List ℕ)) → Option V × FileSource
  read_first s none =
      if s.loop
      then parse_line (reopen s) (fetch (reopen s).stream)
      else (none, record s { stream = [] })
  read_first s (some found) = parse_line s (some found)

  unfoldable pub read : FileSource → Option V × FileSource
  read s = read_first s (fetch s.stream)

  unfoldable pub reads : FileSource → ℕ → List (Option V)
  reads s zero = []
  reads s (suc n) = let r = read s in r.0 ∷ reads r.1 n

  -- The values of `n` reads, by the lines of data: those that are left, and then, if the source
  -- loops, all of them again and again.
  abbrev pub values : Bool → List (List ℕ) → List (List ℕ) → ℕ → List (Option V)
  values loop all left zero = []
  values loop all (line ∷ left) (suc n) = stod line ∷ values loop all left n
  values true (line ∷ all) [] (suc n) = stod line ∷ values true (line ∷ all) all n
  values true [] [] (suc n) = none ∷ values true [] [] n
  values false all [] (suc n) = none ∷ values false all [] n

  Reads : ℕ → Type 0
  Reads n = (s : FileSource) → reads s n ≡ values s.loop (data_lines s.file) (data_lines s.stream) n

  -- The read that starts the file again.
  again :
      (n : ℕ) (ih : Reads n) (s : FileSource) (found : Option (List ℕ × List (List ℕ)))
      → s.loop ≡ true
      → data_lines s.stream ≡ []
      → Fetches s.file found
      → let x = parse_line (reopen s) found in
        x.0 ∷ reads x.1 n ≡ values s.loop (data_lines s.file) (data_lines s.stream) (suc n)
  unfolding parse_line Fetches Reads reopen
  again n ih s none l e h = rw (l, e, h, ih, h) refl
  again n ih s (some (line, lines)) l e h = rw (l, e, h, ih) (rw h refl)

  loops :
      (s : FileSource) → s.loop ≡ true → read_first s none ≡ parse_line (reopen s) (fetch s.file)
  unfolding read_first reopen
  loops s l = rw l refl

  ends : (s : FileSource) → s.loop ≡ false → read_first s none ≡ (none, record s { stream = [] })
  unfolding read_first
  ends s l = rw l refl

  first :
      (n : ℕ) (ih : Reads n) (s : FileSource) (found : Option (List ℕ × List (List ℕ)))
      → Fetches s.stream found
      → let x = read_first s found in
        x.0 ∷ reads x.1 n ≡ values s.loop (data_lines s.file) (data_lines s.stream) (suc n)
  unfolding Fetches Reads
  first n ih s (some (line, lines)) h = unfold read_first parse_line in rw (h, ih) refl
  first n ih s none h = elim (Bool-cases s.loop) [
    | inl l ↦ rw (loops s l) (again n ih s (fetch s.file) l h (fetch-Fetches s.file))
    | inr l ↦ rw (ends s l, h, ih, l) refl
  ]

  -- Any number of reads gives the values of the lines of data in their order, comments and empty
  -- lines left out: first those that are left, and then none if the source does not loop, or else
  -- those of the whole file again and again, and none if there are none.
  pub reads-values :
      (n : ℕ) (s : FileSource)
      → reads s n ≡ values s.loop (data_lines s.file) (data_lines s.stream) n
  unfolding reads read Reads
  reads-values zero s = refl
  reads-values (suc n) s = first n (reads-values n) s (fetch s.stream) (fetch-Fetches s.stream)
