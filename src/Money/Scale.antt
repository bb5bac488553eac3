-- ===== src/Money/Scale.antt =====
-- impl/lnpl/money.py: `parse_money_literal` accepts exactly the literals of the currency's scale.
use linkly.Base.{
  ℕ, ◌≡◌, ◌↔◌, sym, ap, ◌∙◌, some, ◌==◌, length, arith, Bool-cases, Option-cases, inl, inr, ==_iff,
}
use linkly.Base.Result.{ok, chain_returns}
use linkly.Base.Text.{Text}
use linkly.Money.{exponent, Groups, match_literal, amount_text, check_scale, parse_money_literal}
use linkly.Money.Literals.{Spells, match_literal_iff}

-- The token spells a literal with as many decimal places as its currency has, and its amount and
-- currency are the pair.
pub record IsMoney (token : Text) (amount currency : Text) : Type 0 where
  pub groups : Groups
  pub spelled : Spells token groups
  pub scale : exponent groups.currency ≡ ok (length groups.fraction)
  pub amount_is : amount ≡ amount_text groups.whole groups.fraction
  pub currency_is : currency ≡ groups.currency

check_scale-eq :
    (g : Groups) (exp : ℕ) (amount currency : Text)
    → check_scale g exp ≡ ok (some (amount, currency))
    → (exp ≡ length g.fraction)
      × (amount ≡ amount_text g.whole g.fraction)
      × (currency ≡ g.currency)
check_scale-eq g exp amount currency e = elim (Bool-cases (length g.fraction == exp)) [
  | inl exact ↦
      let made = rw exact at e in (sym ((==_iff (length g.fraction) exp).0 exact), cc made, cc made)
  | inr off ↦ absurd (cc (rw off at e))
]

-- `parse_money_literal` returns an amount and a currency exactly where the token is digits, then
-- maybe a dot and digits, then three capitals of an active currency and maybe a newline at the end, with
-- exactly as many decimals as that currency has; the amount is the text before the currency.
pub parse_money_literal_iff :
    (token amount currency : Text)
    → (parse_money_literal token ≡ ok (some (amount, currency))) ↔ IsMoney token amount currency
unfolding parse_money_literal
parse_money_literal_iff token amount currency = (
  λ e. elim (Option-cases (match_literal token)) [
    | inl missed ↦ absurd (cc (rw missed at e))
    | inr (g, found) ↦
        let (exp, scaled, checked) = chain_returns (exponent g.currency) _ (rw found at e) in
        let (exact, amount_is, currency_is) = check_scale-eq g exp amount currency checked in
        record {
          groups = g;
          spelled = (match_literal_iff token g).0 found;
          scale = scaled ∙ ap ok exact;
          amount_is = amount_is;
          currency_is = currency_is;
        }
  ],
  λ m.
      rw ((match_literal_iff token m.groups).1 m.spelled, m.scale, m.amount_is, m.currency_is)
        (ground arith),
)
