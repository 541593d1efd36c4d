-- ===== src/Identity.antt =====
-- The authored addresses `<namespace/Class/identifier>`: `parse_universal_id` of src/nquad.rs and
-- the two resolvers of src/resolve.rs. A message for the author is the reason that it gives.
pub mod Join
pub mod Subjects
use git_lex.Base.{
  ℕ, Bool, true, false, ◌||◌, Option, none, some, List, [], ◌∷◌, ◌++◌, if◌then◌else◌, not, any,
  Result, ok, err, ◌>>=◌, ltb, length,
}
use git_lex.Text.{
  Text, codes, strip_prefix, strip_suffix, starts_with, ends_with, trim, has, has_text, is_empty,
}
use git_lex.Text.Split.{split, join}
use git_lex.Encode.{uri_encode_path, uri_encode_url}

-- Why a value is refused.
pub data Refusal : Type 0 where
  wikilink mention empty_identifier no_brackets absolute_url no_namespace bare_name : Refusal
  few_segments : Refusal

abbrev pub resource_root : Text
resource_root = codes "https://repolex.ai/"

-- `format!("<{iri}>")`
abbrev pub angle : Text → Text
angle iri = b'<' ∷ (iri ++ b'>' ∷ [])

abbrev pub scheme_mark : Text
scheme_mark = codes "://"

abbrev pub is_url : Text → Bool
is_url s = starts_with (codes "http://") s || starts_with (codes "https://") s

-- What stands between the angle brackets of a trimmed value.
unfoldable pub brackets : Text → Option Text
brackets raw = do opened ← strip_prefix (b'<' ∷ []) (trim raw); strip_suffix (b'>' ∷ []) opened

pub record UniversalId : Type 0 where
  pub namespace : Text
  pub class : Text
  pub identifier : Text
  pub inner : Text

abbrev pub id_of : Text → List Text → Result Refusal UniversalId
id_of inner (namespace ∷ class ∷ id ∷ more) =
    if is_empty namespace || (is_empty class || is_empty id)
    then err few_segments
    else ok (record {
      namespace = namespace;
      class = class;
      identifier = join (b'/' ∷ []) (id ∷ more);
      inner = inner;
    })
id_of inner _ = err few_segments

abbrev pub id_from : Option Text → Result Refusal UniversalId
id_from none = err no_brackets
id_from (some between) =
    let inner = trim between in
    if has_text scheme_mark inner then err absolute_url else id_of inner (split b'/' inner)

unfoldable pub parse_universal_id : Text → Result Refusal UniversalId
unfolding brackets split join
parse_universal_id raw = id_from (brackets raw)

abbrev pub thing_address : Text → Text
thing_address inner = angle (resource_root ++ uri_encode_path inner)

abbrev pub thing_from : Option Text → Result Refusal Text
thing_from none = err no_brackets
thing_from (some between) =
    let inner = trim between in
    if is_empty inner
    then err empty_identifier
    else if has_text scheme_mark inner
    then err absolute_url
    else if not (has b'/' inner)
    then err no_namespace
    else ok (thing_address inner)

unfoldable pub resolve_thing_reference : Text → Result Refusal Text
unfolding brackets
resolve_thing_reference raw = thing_from (brackets raw)

pub data ResolveResult : Type 0 where
  iri unresolved : Text → ResolveResult
  rejected : Refusal → ResolveResult

-- Rule 3b, on what stands between the brackets.
abbrev pub bracketed : Text → ResolveResult
bracketed between =
    let inner = trim between in
    if is_empty inner
    then rejected empty_identifier
    else if has_text scheme_mark inner
    then iri (angle (uri_encode_url inner))
    else if not (has b'/' inner)
    then rejected no_namespace
    else iri (thing_address inner)

-- `git::resource_base` (the a-box base and the scaffold folder) is read from repo.yml once.
module _ (base scaffold : Text) where
  abbrev pub resource_tail : Option Text → Text → Text
  resource_tail none path = path
  resource_tail (some tail) path = tail

  unfoldable pub resource_uri : Text → Text
  resource_uri path =
      if is_empty path
      then base
      else base ++ (b'/' ∷ resource_tail (strip_prefix scaffold path) path)

  -- Rules 4, 5 and 3, for a value without brackets.
  abbrev pub unbracketed : Text → ResolveResult
  unbracketed raw =
      if is_url raw
      then iri (angle (uri_encode_url raw))
      else if has b'/' raw || ends_with (codes ".md") raw
      then iri (angle (resource_uri (uri_encode_path raw)))
      else if is_empty (trim raw)
      then unresolved raw
      else rejected bare_name

  abbrev pub unless_bracketed : Option Text → Text → ResolveResult
  unless_bracketed none raw = unbracketed raw
  unless_bracketed (some between) raw = bracketed between

  unfoldable pub resolve_frontmatter_value : Text → ResolveResult
  unfolding brackets resource_uri
  resolve_frontmatter_value raw =
      if starts_with (codes "[[") raw || ends_with (codes "]]") raw
      then rejected wikilink
      else if starts_with (codes "@") raw
      then rejected mention
      else unless_bracketed (brackets raw) raw
