-- ===== src/Dns/Message/Total.antt =====
-- Parsing a response always ends, without a panic, for any bytes that leave room below the limit of
-- a 16-bit length.
use dog.Prelude.{ℕ, ◌+◌, ◌≤◌, ◌≡◌, ◌⊎◌, inl, inr, refl, List, length, arith}
use dog.Dns.Outcome.{Outcome, WireError, ok, err, Ensures, holds, failed, Ensures-bind, u16_max}
use dog.Dns.Cursor.{ByteOrder, IsMessage}
use dog.Dns.Cursor.Bounds.{read_u16-Moves}
use dog.Dns.Message.{Response, result, read_query, read_answer, read_response, response_from_bytes}
use dog.Dns.Message.Bounds.{read_section-Ensures, read_query-Ensures, read_answer-Ensures}

module _ ⦃B : ByteOrder⦄ (buf : List ℕ) (message : IsMessage buf)
    (short : length buf + 255 ≤ u16_max) where
  read_response-Ensures : Ensures (λ _ p. p ≤ length buf) (read_response buf 0)
  unfolding read_response
  read_response-Ensures =
      Ensures-bind (read_u16-Moves buf message.bytes 0 (omega arith)) λ id p₁ (h₁, e₁, l₁).
        Ensures-bind (read_u16-Moves buf message.bytes p₁ l₁) λ flag_bits p₂ (h₂, e₂, l₂).
          Ensures-bind (read_u16-Moves buf message.bytes p₂ l₂) λ queries p₃ (h₃, e₃, l₃).
            Ensures-bind (read_u16-Moves buf message.bytes p₃ l₃) λ answers p₄ (h₄, e₄, l₄).
              Ensures-bind (read_u16-Moves buf message.bytes p₄ l₄) λ authorities p₅ (h₅, e₅, l₅).
                Ensures-bind (read_u16-Moves buf message.bytes p₅ l₅) λ additionals p₆ (h₆, e₆, l₆).
                  Ensures-bind
                    (read_section-Ensures buf message read_query (read_query-Ensures buf message)
                      queries p₆ l₆)
                    λ qs p₇ (n₇, (a₇, l₇)).
                      Ensures-bind
                        (read_section-Ensures buf message read_answer
                          (read_answer-Ensures buf message short) answers p₇ l₇)
                        λ as' p₈ (n₈, (a₈, l₈)).
                          Ensures-bind
                            (read_section-Ensures buf message read_answer
                              (read_answer-Ensures buf message short) authorities p₈ l₈)
                            λ ns p₉ (n₉, (a₉, l₉)).
                              Ensures-bind
                                (read_section-Ensures buf message read_answer
                                  (read_answer-Ensures buf message short) additionals p₉ l₉)
                                λ more p (n, (a, l)). holds l

result-cases {ℓ κ} :
    {A : Type ℓ} {Q : A → ℕ → Type κ} {r : Outcome (A × ℕ)}
    → Ensures Q r
    → ((value : A) × (result r ≡ ok value)) ⊎ ((e : WireError) × (result r ≡ err e))
result-cases (holds {x} h) = inl (x, refl)
result-cases (failed {e}) = inr (e, refl)

-- On any message of bytes that is at most 65,280 bytes long, `Response::from_bytes` ends in a
-- response or in a `WireError`: no arithmetic overflows, no type number is out of range, and no
-- loop or recursion runs out of fuel.
pub response_from_bytes_total :
    ⦃B : ByteOrder⦄ (bytes : List ℕ)
    → IsMessage bytes
    → length bytes + 255 ≤ u16_max
    → ((response : Response) × (response_from_bytes bytes ≡ ok response))
      ⊎ ((e : WireError) × (response_from_bytes bytes ≡ err e))
unfolding response_from_bytes
response_from_bytes_total bytes message short =
    result-cases (read_response-Ensures bytes message short)
