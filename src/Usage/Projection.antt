-- ===== src/Usage/Projection.antt =====
-- internal/usage/projection.go: a Surface's declared counts, and typed usage from one nullable value
-- for each of them.
pub mod RoundTrip
use copilotd.Prelude.{
  ℕ, Bool, true, false, List, [], ◌∷◌, Option, none, some, Bytes, codes, ℤ, pos, length, ◌==◌, map,
  Result, ok, err, if◌then◌else◌,
}
use copilotd.Pricing.Native.{AnthropicUsage, OpenAiUsage}

pub record NativeCount (U : Type 0) : Type 0 where
  pub name : Bytes
  pub path : Bytes
  pub required : Bool
  pub get : U → Option ℤ
  pub set : U → ℤ → U

abbrev required_count : {U : Type 0} → Bytes → Bytes → (U → ℤ) → (U → ℤ → U) → NativeCount U
required_count name path get set = record {
  name = name;
  path = path;
  required = true;
  get = λ native. some (get native);
  set = set;
}

abbrev optional_count :
    {U : Type 0} → Bytes → Bytes → (U → Option ℤ) → (U → Option ℤ → U) → NativeCount U
optional_count name path get set = record {
  name = name;
  path = path;
  required = false;
  get = get;
  set = λ native value. set native (some value);
}

pub data UsageError : Type 0 where
  got_counts : ℕ → ℕ → UsageError
  unreported : Bytes → UsageError

module _ {U : Type 0} where
  -- The loop of `Projection.Usage`, on vectors of one length.
  abbrev pub fill : List (NativeCount U) → List (Option ℤ) → U → Result UsageError U
  fill [] values native = ok native
  fill (c ∷ counts) [] native = ok native
  fill (c ∷ counts) (none ∷ values) native =
      let rest = fill counts values native in if c.required then err (unreported c.name) else rest
  fill (c ∷ counts) (some value ∷ values) native = fill counts values (c.set native value)

  -- `Projection.Usage`, from the record's zero value.
  abbrev pub usage_of : List (NativeCount U) → U → List (Option ℤ) → Result UsageError U
  usage_of counts zero_value values =
      if length values == length counts
      then fill counts values zero_value
      else err (got_counts (length values) (length counts))

  -- `NativeCount.Value` of every count, in declaration order.
  abbrev pub values_of : List (NativeCount U) → U → List (Option ℤ)
  values_of counts native = map (λ c. c.get native) counts

abbrev pub no_anthropic_usage : AnthropicUsage
no_anthropic_usage = record {
  input_tokens = pos 0;
  output_tokens = pos 0;
  cache_creation_input_tokens = none;
  cache_read_input_tokens = none;
  ephemeral_5m_input_tokens = none;
  ephemeral_1h_input_tokens = none;
  thinking_tokens = none;
}

abbrev pub no_open_ai_usage : OpenAiUsage
no_open_ai_usage = record {
  input_tokens = pos 0;
  output_tokens = pos 0;
  cached_tokens = none;
  cache_write_tokens = none;
  reasoning_tokens = none;
  total_tokens = none;
}

abbrev pub anthropic_projection : List (NativeCount AnthropicUsage)
anthropic_projection =
    required_count (codes "input_tokens") (codes "input_tokens") (λ u. u.input_tokens)
      (λ u v. record u { input_tokens = v })
    ∷ required_count (codes "output_tokens") (codes "output_tokens") (λ u. u.output_tokens)
        (λ u v. record u { output_tokens = v })
    ∷ optional_count (codes "cache_creation_input_tokens") (codes "cache_creation_input_tokens")
        (λ u. u.cache_creation_input_tokens) (λ u v. record u { cache_creation_input_tokens = v })
    ∷ optional_count (codes "cache_read_input_tokens") (codes "cache_read_input_tokens")
        (λ u. u.cache_read_input_tokens) (λ u v. record u { cache_read_input_tokens = v })
    ∷ optional_count (codes "ephemeral_5m_input_tokens")
        (codes "cache_creation.ephemeral_5m_input_tokens") (λ u. u.ephemeral_5m_input_tokens)
        (λ u v. record u { ephemeral_5m_input_tokens = v })
    ∷ optional_count (codes "ephemeral_1h_input_tokens")
        (codes "cache_creation.ephemeral_1h_input_tokens") (λ u. u.ephemeral_1h_input_tokens)
        (λ u v. record u { ephemeral_1h_input_tokens = v })
    ∷ optional_count (codes "thinking_tokens") (codes "output_tokens_details.thinking_tokens")
        (λ u. u.thinking_tokens) (λ u v. record u { thinking_tokens = v })
    ∷ []

abbrev pub open_ai_projection : List (NativeCount OpenAiUsage)
open_ai_projection =
    required_count (codes "input_tokens") (codes "input_tokens") (λ u. u.input_tokens)
      (λ u v. record u { input_tokens = v })
    ∷ required_count (codes "output_tokens") (codes "output_tokens") (λ u. u.output_tokens)
        (λ u v. record u { output_tokens = v })
    ∷ optional_count (codes "cached_tokens") (codes "input_tokens_details.cached_tokens")
        (λ u. u.cached_tokens) (λ u v. record u { cached_tokens = v })
    ∷ optional_count (codes "cache_write_tokens") (codes "input_tokens_details.cache_write_tokens")
        (λ u. u.cache_write_tokens) (λ u v. record u { cache_write_tokens = v })
    ∷ optional_count (codes "reasoning_tokens") (codes "output_tokens_details.reasoning_tokens")
        (λ u. u.reasoning_tokens) (λ u v. record u { reasoning_tokens = v })
    ∷ optional_count (codes "total_tokens") (codes "total_tokens") (λ u. u.total_tokens)
        (λ u v. record u { total_tokens = v })
    ∷ []

abbrev pub anthropic_usage : List (Option ℤ) → Result UsageError AnthropicUsage
anthropic_usage = usage_of anthropic_projection no_anthropic_usage

abbrev pub open_ai_usage : List (Option ℤ) → Result UsageError OpenAiUsage
open_ai_usage = usage_of open_ai_projection no_open_ai_usage
