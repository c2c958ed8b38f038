-- ===== src/Agent/Tools/Search/Bounds.antt =====
-- The limits of a search of files: on what is scanned, on the matches, on the output.
use mathlib.Core.List.{Memᴰ}
use Prim.Native.String.{count, ◌++◌ as text_append}
use Prim.Native.String.count
use astra_agent.Base.{
  ℕ, zero, suc, ◌+◌, ◌≤◌, ◌<◌, ◌≡◌, refl, true, false, Option, none, some, List, [], ◌∷◌, ◌++◌,
  String, arith, ap, All, All-append, All-of_mem, Bool-cases, inl, inr, ◌==◌, length, length-append,
  take,
}
use astra_agent.Base.Text.{join, count-append, splitlines, contains_text}
use astra_agent.Domain.Models.{Json, text, Fields}
use astra_agent.Agent.Tools.Paths.{
  FilePath, Bytes, Attempt, done, raised, FileSystem, is_relative_to, lookup,
  relative_workspace_path, or_default,
}
use astra_agent.Agent.Tools.Paths.Inside.{relative_workspace_path-inside}
use astra_agent.Agent.Tools.Files.{ToolResult}
use astra_agent.Agent.Tools.Search.{
  Tree, Trees, node, nil, cons, Limits, Progress, Step, going, cut, progress, output_size,
  match_text, add_match, is_full, follow, unless_full, scan_lines, read_candidate, first_bytes,
  read_path, scan_candidate, scan_files, scan_tree, scan_trees, report, nothing, search_files,
  search_for, search_located,
}

count-join :
    (items : List String) (item : String)
    → count (join "\n" (items ++ item ∷ [])) ≡ output_size items + count item
unfolding join output_size
count-join [] item = omega arith
count-join (first ∷ []) item =
    rw (count-append first (text_append "\n" item), count-append "\n" item) (omega arith)
count-join (first ∷ second ∷ items) item =
    rw
      (
        count-append first (text_append "\n" (join "\n" (second ∷ items ++ item ∷ []))),
        count-append "\n" (join "\n" (second ∷ items ++ item ∷ [])),
      )
      (omega (arith, count-join (second ∷ items) item))

take-take : (n : ℕ) (bytes : Bytes) → take n (take (suc n) bytes) ≡ take n bytes
take-take zero bytes = refl
take-take (suc n) [] = refl
take-take (suc n) (byte ∷ bytes) = ap (λ rest. byte ∷ rest) (take-take n bytes)

module _ (files : FileSystem) (root : FilePath) (decode : Bytes → String)
    (casefold : String → String) (limits : Limits) (query_folded : String) where
  -- The lines that a search sees of a file.
  abbrev pub seen_lines : Bytes → List String
  seen_lines bytes = splitlines (decode (take limits.max_file_bytes bytes))

  -- A match names a file in the workspace and one of its lines, which contains the query.
  pub record IsMatch (match : String) : Type 0 where
    pub path : FilePath
    pub bytes : Bytes
    pub line_number : ℕ
    pub line : String
    pub inside : is_relative_to path root ≡ true
    pub content : files.read path ≡ done bytes
    pub in_file : Memᴰ line (seen_lines bytes)
    pub hit : contains_text query_folded (casefold line) ≡ true
    pub named : match ≡ match_text root path line_number line

  pub record IsSound (p : Progress) : Type 0 where
    pub files_ok : p.scanned_files ≤ limits.max_files
    pub matches_ok : length p.matches ≤ limits.max_matches
    pub output_ok : count (join "\n" p.matches) ≤ limits.max_output_bytes
    pub matches_found : All IsMatch p.matches

  add-IsSound :
      (p : Progress) (match : String)
      → IsSound p
      → length p.matches < limits.max_matches
      → output_size p.matches + count match ≤ limits.max_output_bytes
      → IsMatch match
      → IsSound (add_match match p)
  add-IsSound p match h room fits found = record {
    files_ok = h.files_ok;
    matches_ok = rw (length-append p.matches (match ∷ [])) (omega (arith, room));
    output_ok = rw (count-join p.matches match) fits;
    matches_found = All-append IsMatch p.matches (match ∷ []) h.matches_found (found, tt);
  }

  module _ (path : FilePath) (bytes : Bytes) (inside : is_relative_to path root ≡ true)
      (content : files.read path ≡ done bytes) where
    found-IsMatch :
        (n : ℕ) (line : String)
        → Memᴰ line (seen_lines bytes)
        → contains_text query_folded (casefold line) ≡ true
        → IsMatch (match_text root path n line)
    found-IsMatch n line there hit = record {
      path = path;
      bytes = bytes;
      line_number = n;
      line = line;
      inside = inside;
      content = content;
      in_file = there;
      hit = hit;
      named = refl;
    }

    scan_lines-IsSound :
        (n : ℕ) (lines : List String) (p : Progress)
        → All (λ line. Memᴰ line (seen_lines bytes)) lines
        → IsSound p
        → length p.matches < limits.max_matches
        → IsSound
            (progress (scan_lines files root decode casefold limits query_folded path n lines p))
    unfolding scan_lines
    scan_lines-IsSound n [] p there h room = h
    scan_lines-IsSound n (line ∷ lines) p there h room =
        let match = match_text root path n line in
        ground (
          arith,
          h,
          room,
          scan_lines-IsSound (suc n) lines p there.1,
          scan_lines-IsSound (suc n) lines (add_match match p) there.1,
          add-IsSound p match,
          found-IsMatch n line there.0,
        )

  -- The candidate of a file is in the workspace, with the start of its content.
  IsCandidate : Option (FilePath × Bytes) → Type 0
  IsCandidate none = Unit
  IsCandidate (some (path, raw)) =
      (bytes : Bytes) × (is_relative_to path root ≡ true)
      × (files.read path ≡ done bytes)
      × (raw ≡ take (suc limits.max_file_bytes) bytes)

  first_bytes-IsCandidate :
      (path : FilePath) (attempt : Attempt Bytes)
      → files.read path ≡ attempt
      → is_relative_to path root ≡ true
      → IsCandidate (first_bytes files root decode casefold limits query_folded path attempt)
  unfolding IsCandidate
  first_bytes-IsCandidate path (raised error) e inside = tt
  first_bytes-IsCandidate path (done bytes) e inside = (bytes, inside, e, refl)

  read_path-IsCandidate :
      (attempt : Attempt FilePath)
      → ((path : FilePath) → attempt ≡ done path → is_relative_to path root ≡ true)
      → IsCandidate (read_path files root decode casefold limits query_folded attempt)
  unfolding IsCandidate
  read_path-IsCandidate (raised error) inside = tt
  read_path-IsCandidate (done path) inside = elim (Bool-cases (files.is_file path)) [
    | inl file ↦ rw file (first_bytes-IsCandidate path (files.read path) refl (inside path refl))
    | inr other ↦ rw other tt
  ]

  read_candidate-IsCandidate :
      (directory : FilePath) (filename : String)
      → IsCandidate
          (read_candidate files root decode casefold limits query_folded directory filename)
  unfolding read_candidate
  read_candidate-IsCandidate directory filename =
      read_path-IsCandidate _ (λ path e. relative_workspace_path-inside files root _ path e)

  scan_candidate-IsSound :
      (candidate : Option (FilePath × Bytes)) (p : Progress)
      → IsCandidate candidate
      → IsSound p
      → is_full files root decode casefold limits query_folded p ≡ false
      → IsSound
          (progress (scan_candidate files root decode casefold limits query_folded candidate p))
  unfolding IsCandidate
  scan_candidate-IsSound none p c h room = h
  scan_candidate-IsSound (some (path, raw)) p c h room =
      let (bytes, inside, content, start) = c in
      rw (start, take-take limits.max_file_bytes bytes)
        (scan_lines-IsSound path bytes inside content 1 (seen_lines bytes)
          (record p { scanned_files = suc p.scanned_files })
          (All-of_mem _ (seen_lines bytes) (λ line there. there))
          (record {
            files_ok = ground (arith, room);
            matches_ok = h.matches_ok;
            output_ok = h.output_ok;
            matches_found = h.matches_found;
          })
          (ground (arith, room)))

  follow-IsSound :
      (step : Step) (rest : Progress → Step)
      → IsSound (progress step)
      → ((q : Progress) → IsSound q → IsSound (progress (rest q)))
      → IsSound (progress (follow files root decode casefold limits query_folded step rest))
  follow-IsSound (cut p) rest h k = h
  follow-IsSound (going p) rest h k = k p h

  unless_full-IsSound :
      (rest : Progress → Step) (p : Progress)
      → IsSound p
      → (is_full files root decode casefold limits query_folded p ≡ false
          → IsSound (progress (rest p)))
      → IsSound (progress (unless_full files root decode casefold limits query_folded rest p))
  unless_full-IsSound rest p h k =
      elim (Bool-cases (is_full files root decode casefold limits query_folded p)) [
        | inl full ↦ rw full h
        | inr room ↦ rw room (k room)
      ]

  scan_files-IsSound :
      (directory : FilePath) (filenames : List String) (p : Progress)
      → IsSound p
      → IsSound (
          progress
            (scan_files files root decode casefold limits query_folded directory filenames p))
  unfolding scan_files
  scan_files-IsSound directory [] p h = h
  scan_files-IsSound directory (filename ∷ filenames) p h =
      let candidate =
        read_candidate files root decode casefold limits query_folded directory filename in
      let scan = scan_candidate files root decode casefold limits query_folded candidate in
      let rest = scan_files files root decode casefold limits query_folded directory filenames in
      unless_full-IsSound (λ q. follow files root decode casefold limits query_folded (scan q) rest)
        p h
        λ room.
          follow-IsSound (scan p) rest
            (scan_candidate-IsSound candidate p (read_candidate-IsCandidate directory filename) h
              room)
            (λ q k. scan_files-IsSound directory filenames q k)

  mutual
    unfolding scan_tree

    scan_tree-IsSound :
        (directory : FilePath) (tree : Tree) (p : Progress)
        → IsSound p
        → IsSound
            (progress (scan_tree files root decode casefold limits query_folded directory tree p))
    scan_tree-IsSound directory (node name filenames trees) p h =
        follow-IsSound
          (scan_files files root decode casefold limits query_folded directory filenames p)
          (unless_full files root decode casefold limits query_folded
            (scan_trees files root decode casefold limits query_folded directory trees))
          (scan_files-IsSound directory filenames p h)
          λ q k.
            unless_full-IsSound
              (scan_trees files root decode casefold limits query_folded directory trees) q k
              (λ _. scan_trees-IsSound directory trees q k)

    scan_trees-IsSound :
        (directory : FilePath) (trees : Trees) (p : Progress)
        → IsSound p
        → IsSound
            (progress (scan_trees files root decode casefold limits query_folded directory trees p))
    scan_trees-IsSound directory nil p h = h
    scan_trees-IsSound directory (cons (node name filenames below) trees) p h =
        let next = directory ++ name ∷ [] in
        let rest = scan_trees files root decode casefold limits query_folded directory trees in
        elim (Bool-cases (files.is_symlink next)) [
          | inl link ↦ rw link (scan_trees-IsSound directory trees p h)
          | inr plain ↦ rw plain (
              follow-IsSound
                (scan_tree files root decode casefold limits query_folded next
                  (node name filenames below) p)
                (unless_full files root decode casefold limits query_folded rest)
                (scan_tree-IsSound next (node name filenames below) p h)
                λ q k. unless_full-IsSound rest q k (λ _. scan_trees-IsSound directory trees q k))
        ]

  nothing-IsSound : IsSound (nothing files root decode casefold limits query_folded)
  unfolding join
  nothing-IsSound = record {
    files_ok = omega arith;
    matches_ok = omega arith;
    output_ok = rw count.nil (omega arith);
    matches_found = tt;
  }

module _ (files : FileSystem) (walk : FilePath → Tree) (root : FilePath) (decode : Bytes → String)
    (casefold : String → String) (limits : Limits) where
  -- What a search found of a query, within its limits, and the result that says so.
  pub record Finds (params : Fields) (result : ToolResult) : Type 0 where
    pub query : String
    pub step : Step
    pub asked : lookup "query" params ≡ some (text query)
    pub sound : IsSound files root decode casefold limits (casefold query) (progress step)
    pub reported : result ≡ report files root decode casefold limits (casefold query) step

  search_located-Finds :
      (params : Fields) (query : String) (located : Attempt FilePath)
      → lookup "query" params ≡ some (text query)
      → (search_located files walk root decode casefold limits query located).success ≡ true
      → Finds params (search_located files walk root decode casefold limits query located)
  search_located-Finds params query (raised error) asked h = cc
  search_located-Finds params query (done start) asked h =
      let folded = casefold query in
      let first = nothing files root decode casefold limits folded in
      elim (Bool-cases (files.is_dir start)) [
        | inr other ↦ cc (other, h)
        | inl directory ↦ rw directory (record {
          query = query;
          step = scan_tree files root decode casefold limits folded start (walk start) first;
          asked = asked;
          sound =
              scan_tree-IsSound files root decode casefold limits folded start (walk start) first
                (nothing-IsSound files root decode casefold limits folded);
          reported = refl;
        })
      ]

  search_for-Finds :
      (params : Fields) (value : Option Json)
      → lookup "query" params ≡ value
      → (search_for files walk root decode casefold limits value params).success ≡ true
      → Finds params (search_for files walk root decode casefold limits value params)
  search_for-Finds params none asked h = cc
  search_for-Finds params (some (text query)) asked h = elim (Bool-cases (count query == 0)) [
    | inl blank ↦ cc (blank, h)
    | inr some_text ↦
        let start =
          relative_workspace_path files root
            (some (or_default (lookup "path" params) (text "."))) in
        rw some_text (search_located-Finds params query start asked (rw some_text at h))
  ]
  search_for-Finds params (some _) asked h = cc

  -- A search that succeeds has scanned at most `max_files` files and reports at most `max_matches`
  -- matches in a text of at most `max_output_bytes` characters, and each match names a file in the
  -- workspace, with a line of what the search reads of it that contains the query, both folded.
  pub search_files-Finds :
      (params : Fields)
      → (search_files files walk root decode casefold limits params).success ≡ true
      → Finds params (search_files files walk root decode casefold limits params)
  unfolding search_files
  search_files-Finds params h = search_for-Finds params (lookup "query" params) refl h
