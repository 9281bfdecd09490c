-- ===== src/Examples/Overrides.antt =====
-- One rule on one payload (internal/shim/model_override.go).
use copilotd.Prelude.{
  ◌≡◌, refl, List, [], ◌∷◌, some, true, false, Bytes, codes, equal, ◌++◌, if◌then◌else◌,
}
use copilotd.Shim.ModelOverride.{
  Json, member_read, rewrite, noted, scan_rounds, scan_members, decode, target_of,
  transform_request, transform_client_message, text_message,
}
use copilotd.Shim.ModelOverride.Spliced.{Rewritten, rewrite-Rewritten}

abbrev payload : Bytes
payload = codes "{`model`:`a`}"

-- Backquotes stand for the quotation marks.
abbrev json : Json
json = record {
  is_utf8 = λ text. true;
  decoding = λ text. record {
    opens = true;
    rounds = member_read (codes "model") 9 12 ∷ [];
    closes = true;
    at_end = true;
  };
  unquote = λ text. if equal text (codes "`a`") then some (codes "a") else some (codes "b");
  quote = λ text. codes "`" ++ text ++ codes "`";
}

abbrev rules : List (Bytes × Bytes)
rules = (codes "a", codes "b-1") ∷ []

rewrite-Rewritten_example : Rewritten json rules payload false (rewrite json rules payload false)
rewrite-Rewritten_example = rewrite-Rewritten json rules payload false

over_http : transform_request json rules payload ≡ codes "{`model`:`b-1`}"
unfolding equal noted scan_rounds scan_members decode target_of rewrite
over_http = refl

no_event :
    transform_client_message json rules (text_message, payload) ≡ ((text_message, payload), true)
unfolding equal noted scan_rounds scan_members decode target_of rewrite
no_event = refl
