-- ===== src/Config.antt =====
-- src/memory_blackbox/config.py and src/memory_blackbox/anchor/factory.py. Paths are texts; white
-- space and letter case are those of ASCII.
use memory_blackbox.Prelude.{
  ◌+◌, Bool, false, not, ◌&&◌, ◌||◌, [], ◌∷◌, ◌++◌, Option, none, some, Text, codes, ◌==◌, ltb,
  if◌then◌else◌, Result, ok, err, value_error,
}
use memory_blackbox.Codec.Hex.{is_space}
use memory_blackbox.Anchor.Rekor.Transport.{Packages, public_rekor_url, rekor_url}

-- The namespace and `async_flush` keep their defaults and are read by nothing.
pub record Config : Type 0 where
  pub home : Text
  pub anchor_backend : Text
  pub witness_path : Option Text
  pub rekor_base : Option Text

abbrev pub anchor_none : Text
anchor_none = codes "none"

abbrev pub anchor_file : Text
anchor_file = codes "file"

abbrev pub anchor_rekor : Text
anchor_rekor = codes "rekor"

-- `backend in ANCHOR_BACKENDS`
unfoldable pub is_backend : Text → Bool
is_backend name = name == anchor_none || (name == anchor_file || name == anchor_rekor)

-- `config.anchoring`
unfoldable pub is_anchoring : Config → Bool
is_anchoring config = not (config.anchor_backend == anchor_none)

unfoldable pub default_witness_path : Config → Text
default_witness_path config = elim config.witness_path [
  | none ↦ config.home ++ codes "/witness.jsonl"
  | some path ↦ path
]

-- `a or None` of a variable of the environment.
abbrev pub set_or_none : Option Text → Option Text
set_or_none none = none
set_or_none (some []) = none
set_or_none (some (x ∷ s)) = some (x ∷ s)

abbrev pub text_or : Text → Option Text → Text
text_or default none = default
text_or default (some s) = s

-- `s.strip()` and `s.lower()`
unfoldable pub lstrip : Text → Text
lstrip [] = []
lstrip (x ∷ s) = let rest = lstrip s in if is_space x then rest else x ∷ s

unfoldable pub rstrip : Text → Text
rstrip [] = []
rstrip (x ∷ s) = let rest = rstrip s in if is_space x && rest == [] then [] else x ∷ rest

unfoldable pub lower : Text → Text
lower [] = []
lower (x ∷ s) = (if ltb 64 x && ltb x 91 then x + 32 else x) ∷ lower s

-- The backend that the environment names.
unfoldable pub backend_of : Option Text → Text
backend_of value =
    text_or anchor_none (set_or_none (some (lower (rstrip (lstrip (text_or anchor_none value))))))

-- `resolve_config`
unfoldable pub resolve_config : (Text → Option Text) → Text → Option Text → Result Config
resolve_config env default_home home =
    let backend = backend_of (env (codes "MEMORY_BLACKBOX_ANCHOR")) in
    if not (is_backend backend)
    then err value_error
    else ok (record {
      home = text_or (text_or default_home (set_or_none (env (codes "MEMORY_BLACKBOX_HOME")))) home;
      anchor_backend = backend;
      witness_path = set_or_none (env (codes "MEMORY_BLACKBOX_ANCHOR_WITNESS"));
      rekor_base = set_or_none (env (codes "MEMORY_BLACKBOX_ANCHOR_REKOR_URL"));
    })

-- The anchors that the factory builds: with the path of the witness file, or the URL of the client.
pub data Backend : Type 0 where
  no_log : Backend
  witness_file : Text → Backend
  rekor_log : Text → Backend

abbrev pub rekor_backend : Result Text → Result Backend
rekor_backend (ok url) = ok (rekor_log url)
rekor_backend (err why) = err why

-- `build_anchor`
unfoldable pub build_anchor : Packages → Config → Result Backend
build_anchor p config =
    if config.anchor_backend == anchor_none
    then ok no_log
    else if config.anchor_backend == anchor_file
    then ok (witness_file (default_witness_path config))
    else if config.anchor_backend == anchor_rekor
    then rekor_backend
        (rekor_url p (text_or public_rekor_url (set_or_none config.rekor_base)) false)
    else err value_error
