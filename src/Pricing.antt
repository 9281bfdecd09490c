-- ===== src/Pricing.antt =====
-- internal/usage/pricing: exact decimal amounts, rates, tariffs and the native calculators.
pub mod Decimal
pub mod Amount
pub mod ParseAmount
pub mod ParseRate
pub mod Native
pub mod Contribution
pub mod OpenAi
pub mod Anthropic
pub mod Tariff
