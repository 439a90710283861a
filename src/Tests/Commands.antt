-- ===== src/Tests/Commands.antt =====
-- Runs of the command line and of the graph exporters.
use memory_blackbox.Prelude.{
  ℕ, ◌≡◌, ◌≢◌, refl, Bool, true, List, [], ◌∷◌, ◌++◌, map, Option, none, some, Text, codes, ◌==◌,
  if◌then◌else◌,
}
use memory_blackbox.Crypto.Toy.{toy, toy-IsSound}
use memory_blackbox.Model.Json.{null}
use memory_blackbox.Storage.{Row}
use memory_blackbox.Ledger.Store.{LedgerStore}
use memory_blackbox.Anchor.Rekor.Transport.{Opener, unreachable}
use memory_blackbox.Config.{Config}
use memory_blackbox.Cli.{World, Flags, exit, opened, verify_command, anchor_command}
use memory_blackbox.Cli.NoLog.{verify_command-no_log}
use memory_blackbox.Cli.EndToEnd.{anchor_command-verify_command}
use memory_blackbox.Exporters.Graph.{
  EdgeText, join_lines, dot_node, dot_edge, dot_graph, mermaid_node, mermaid_edge, mermaid_graph,
}
use memory_blackbox.Exporters.Declared.{Line, IsDeclared, edges_of, render, graphs-AreDeclared}
use memory_blackbox.Tests.Codec.{toy_json, toy_json-IsRoundTrip}
use memory_blackbox.Tests.Ledgers.{two_rows, two_rows-IsConsistent}
use memory_blackbox.Tests.Anchors.{
  casts, casts-AreCasts, toy_json-WritesObjects, two_id, two_known, two_empty,
}
use memory_blackbox.Tests.Logs.{packages, why}

-- One profile, and a backend from the environment.
abbrev world : Option Text → World (Unit {0})
world backend = record {
  env = λ name. if name == codes "MEMORY_BLACKBOX_ANCHOR" then backend else none;
  default_home = codes "h";
  profiles = λ home. some two_rows;
  files = λ path. [];
  log = tt;
}

abbrev flags : Flags
flags = record { backend = none; witness_path = none; rekor_base = none; home = none }

abbrev config : Text → Config
config backend = record {
  home = codes "h";
  anchor_backend = backend;
  witness_path = none;
  rekor_base = none;
}

abbrev opener : Opener (Unit {0})
opener = record { reply = λ log request. unreachable []; after = λ log request. log }

file_opened : opened (world (some (codes " File"))) flags ≡ some (config (codes "file"), two_rows)
unfolding opened memory_blackbox.Config.resolve_config memory_blackbox.Config.is_backend ◌==◌
    memory_blackbox.Config.backend_of memory_blackbox.Config.lower memory_blackbox.Config.rstrip
    memory_blackbox.Config.lstrip memory_blackbox.Codec.Hex.is_space
    memory_blackbox.Cli.anchor_config
file_opened = refl

anchor_command-verify_command_example :
    ((anchor_command toy toy_json casts
        (packages null)
        why
        opener
        (codes "t")
        (world (some (codes " File")))
        flags
        (codes "t")).1
      ≡ exit 0)
    × (verify_command toy toy_json casts
          (packages null)
          why
          opener
          (codes "u")
          (anchor_command toy toy_json casts
            (packages null)
            why
            opener
            (codes "t")
            (world (some (codes " File")))
            flags
            (codes "t")).0
          true
          flags
        ≡ exit 0)
anchor_command-verify_command_example =
    anchor_command-verify_command toy toy_json casts (packages null) why opener toy-IsSound
      toy_json-IsRoundTrip casts-AreCasts toy_json-WritesObjects (world (some (codes " File")))
      flags (codes "t") (codes "t") (codes "u") (config (codes "file")) two_rows two_id file_opened
      refl refl two_rows-IsConsistent two_known two_empty

none-opened : opened (world none) flags ≡ some (config (codes "none"), two_rows)
unfolding opened memory_blackbox.Config.resolve_config memory_blackbox.Config.is_backend ◌==◌
    memory_blackbox.Config.backend_of memory_blackbox.Config.lower memory_blackbox.Config.rstrip
    memory_blackbox.Config.lstrip memory_blackbox.Codec.Hex.is_space
    memory_blackbox.Cli.anchor_config
none-opened = refl

first_or : Row → List Row → Row
first_or row [] = row
first_or row (x ∷ rows) = x

rest_of : List Row → List Row
rest_of [] = []
rest_of (x ∷ rows) = rows

abbrev blank : Row
blank = record {
  seq = 0;
  record_id = [];
  kind = [];
  namespace = [];
  payload_json = [];
  entry_hash = [];
  prev_hash = none;
  signature = [];
  signer_kid = [];
  created_at = [];
}

has_row : two_rows.ledger ≡ first_or blank two_rows.ledger ∷ rest_of two_rows.ledger
unfolding first_or rest_of memory_blackbox.Ledger.Store.maybe_checkpoint
    memory_blackbox.Ledger.Store.checkpoint_due memory_blackbox.Ledger.Store.insert_row
    memory_blackbox.Ledger.Store.checkpoint
has_row = refl

verify_command-no_log_example :
    verify_command toy toy_json casts (packages null) why opener (codes "t") (world none) true flags
    ≢ exit 0
verify_command-no_log_example =
    verify_command-no_log toy toy_json casts (packages null) why opener (world none) flags
      (codes "t") (config (codes "none")) two_rows (first_or blank two_rows.ledger)
      (rest_of two_rows.ledger) none-opened refl has_row

abbrev edges : List EdgeText
edges = (codes "a", codes "b", codes "x") ∷ (codes "b", codes "a", codes "y") ∷ []

abbrev no_labels : Text → Option Text
no_labels node = none

abbrev all_safe : ℕ → Bool
all_safe x = true

graphs-AreDeclared_example :
    (lines : List Line) × IsDeclared [] lines
    × (edges_of lines ≡ edges)
    × (dot_graph edges no_labels
        ≡ join_lines (
            codes "digraph provenance {"
              ∷ codes "  rankdir=TB;"
              ∷ codes "  node [shape=box];"
              ∷ map (render (dot_node no_labels) dot_edge) lines
            ++ codes "}" ∷ []))
    × (mermaid_graph all_safe edges no_labels
        ≡ join_lines (
            codes "flowchart TD"
            ∷ map (render (mermaid_node all_safe no_labels) (mermaid_edge all_safe)) lines))
graphs-AreDeclared_example = graphs-AreDeclared edges no_labels all_safe
