-- ===== src/Sync/Loader.antt =====
-- `MarkerLastLoader` of src/sync.rs. The store is a parameter: its type, its error, and
-- `load_from_reader`, which changes nothing when it fails.
pub mod Chunks
pub mod Finish
use git_lex.Base.{
  ℕ, suc, ◌+◌, Bool, true, false, ◌&&◌, not, Option, none, some, ◌>>=◌, List, [], ◌∷◌, ◌++◌, Result,
  ok, err, leb, ◌==◌, if◌then◌else◌,
}
use git_lex.Text.{Text, codes, is_empty, trim, strip_prefix, starts_with}
use git_lex.Text.Split.{split_once}

pub record Loader (S E : Type 0) : Type 0 where
  pub store : S
  pub batch_quads : ℕ
  pub carry : Text
  pub batch : Text
  pub held : ℕ
  pub marker : Text
  pub lines : ℕ
  pub error : Option E

abbrev pub sync_marker_predicate : Text
sync_marker_predicate = codes "https://repolex.ai/ontology/git-lex/git2/ordinalDerived"

abbrev after_subject : Text × Text → Option Text
after_subject (_, rest) = strip_prefix (codes "<") rest

abbrev closes_term : Option Text → Bool
closes_term none = false
closes_term (some rest) = starts_with (codes "> ") rest

unfoldable pub is_sync_marker_line : Text → Bool
is_sync_marker_line line =
    closes_term
      (split_once b' ' line >>= after_subject >>= λ rest. strip_prefix sync_marker_predicate rest)

module _ {S E : Type 0} (load_from_reader : Text → S → Result E S) where
  unfoldable pub new : S → ℕ → Loader S E
  new store batch_quads = record {
    store = store;
    batch_quads = if batch_quads == 0 then 1 else batch_quads;
    carry = [];
    batch = [];
    held = 0;
    marker = [];
    lines = 0;
    error = none;
  }

  -- What a load leaves: the store, and the error that is kept.
  abbrev pub loaded : Loader S E → Result E S → Loader S E
  loaded l (ok store) = record l { store = store }
  loaded l (err e) = record l { error = some e }

  abbrev pub try_load : Option E → Loader S E → Loader S E
  try_load none l = loaded l (load_from_reader l.batch l.store)
  try_load (some _) l = l

  unfoldable pub load_batch : Loader S E → Loader S E
  load_batch l = record (try_load l.error l) { batch = []; held = 0 }

  abbrev pub load_full : Loader S E → Loader S E
  load_full l = elim (leb l.batch_quads l.held) [ true ↦ load_batch l | false ↦ l ]

  unfoldable pub line : Text → Loader S E → Loader S E
  unfolding is_sync_marker_line load_batch
  line text l = elim (is_empty (trim text)) [
    | true ↦ l
    | false ↦ elim (is_sync_marker_line text) [
      | true ↦ record l { lines = l.lines + 1; marker = l.marker ++ text }
      | false ↦
          load_full (record l { lines = l.lines + 1; batch = l.batch ++ text; held = l.held + 1 })
    ]
  ]

  -- One line of the text, joined to what was waiting for its line feed.
  abbrev pub take_line : Text → Loader S E → Loader S E
  take_line head l = elim (is_empty l.carry) [
    | true ↦ line head l
    | false ↦ line (l.carry ++ head) (record l { carry = [] })
  ]

  -- `rest.find('\n')` is the walk over the rest; `head` is what it has passed.
  unfoldable pub push_loop : Text → Text → Loader S E → Loader S E
  unfolding line
  push_loop head [] l = record l { carry = l.carry ++ head }
  push_loop head (c ∷ rest) l = elim (c == b'\n') [
    | true ↦ push_loop [] rest (take_line (head ++ c ∷ []) l)
    | false ↦ push_loop (head ++ c ∷ []) rest l
  ]

  unfoldable pub push_str : Text → Loader S E → Loader S E
  unfolding push_loop
  push_str text l = push_loop [] text l

  abbrev pub take_last : Loader S E → Loader S E
  take_last l = elim (is_empty l.carry) [
    | true ↦ l
    | false ↦ line (l.carry ++ codes "\n") (record l { carry = [] })
  ]

  abbrev pub load_marker : Option E → Loader S E → S × Result E ℕ
  load_marker (some e) l = (l.store, err e)
  load_marker none l = elim (load_from_reader l.marker l.store) [
    | ok store ↦ (store, ok l.lines)
    | err e ↦ (l.store, err e)
  ]

  abbrev pub load_rest : Loader S E → S × Result E ℕ
  load_rest l = load_marker l.error l

  -- The store it leaves and what it returns.
  unfoldable pub finish : Loader S E → S × Result E ℕ
  unfolding line load_batch
  finish l = load_rest (load_batch (take_last l))
