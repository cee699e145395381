-- ===== src/Transport/H2/Huffman/RoundTrip.antt =====
-- Digits that were coded with their Huffman codes and padded with ones are decoded.
use dog.Prelude.{
  ℕ, zero, suc, ◌+◌, ◌<◌, ◌≡◌, refl, sym, ap, ◌∙◌, List, [], ◌∷◌, ◌++◌, map, append_assoc,
  append-nil, arith, All,
}
use dog.Transport.Errors.{ok}
use dog.Transport.H2.Huffman.{huffman_codes, position, bits, check_padding, decode, huffman_digits}

-- The bits of a digit (RFC 7541 appendix B).
abbrev pub digit_bits : ℕ → List ℕ
digit_bits zero = 0 ∷ 0 ∷ 0 ∷ 0 ∷ 0 ∷ []
digit_bits (suc zero) = 0 ∷ 0 ∷ 0 ∷ 0 ∷ 1 ∷ []
digit_bits (suc (suc zero)) = 0 ∷ 0 ∷ 0 ∷ 1 ∷ 0 ∷ []
digit_bits (suc (suc (suc zero))) = 0 ∷ 1 ∷ 1 ∷ 0 ∷ 0 ∷ 1 ∷ []
digit_bits (suc (suc (suc (suc zero)))) = 0 ∷ 1 ∷ 1 ∷ 0 ∷ 1 ∷ 0 ∷ []
digit_bits (suc (suc (suc (suc (suc zero))))) = 0 ∷ 1 ∷ 1 ∷ 0 ∷ 1 ∷ 1 ∷ []
digit_bits (suc (suc (suc (suc (suc (suc zero)))))) = 0 ∷ 1 ∷ 1 ∷ 1 ∷ 0 ∷ 0 ∷ []
digit_bits (suc (suc (suc (suc (suc (suc (suc zero))))))) = 0 ∷ 1 ∷ 1 ∷ 1 ∷ 0 ∷ 1 ∷ []
digit_bits (suc (suc (suc (suc (suc (suc (suc (suc zero)))))))) = 0 ∷ 1 ∷ 1 ∷ 1 ∷ 1 ∷ 0 ∷ []
digit_bits (suc (suc (suc (suc (suc (suc (suc (suc (suc n))))))))) = 0 ∷ 1 ∷ 1 ∷ 1 ∷ 1 ∷ 1 ∷ []

abbrev pub code_bits : List ℕ → List ℕ
code_bits [] = []
code_bits (d ∷ ds) = digit_bits d ++ code_bits ds

abbrev pub ones : ℕ → List ℕ
ones zero = []
ones (suc k) = 1 ∷ ones k

abbrev pub IsDigit : ℕ → Type 0
IsDigit d = d < 10

decode_digit :
    (d : ℕ) (rest digits : List ℕ)
    → IsDigit d
    → decode (digit_bits d ++ rest) digits 0 0 ≡ decode rest (digits ++ (b'0' + d) ∷ []) 0 0
unfolding decode position huffman_codes
decode_digit zero rest digits h = refl
decode_digit (suc zero) rest digits h = refl
decode_digit (suc (suc zero)) rest digits h = refl
decode_digit (suc (suc (suc zero))) rest digits h = refl
decode_digit (suc (suc (suc (suc zero)))) rest digits h = refl
decode_digit (suc (suc (suc (suc (suc zero))))) rest digits h = refl
decode_digit (suc (suc (suc (suc (suc (suc zero)))))) rest digits h = refl
decode_digit (suc (suc (suc (suc (suc (suc (suc zero))))))) rest digits h = refl
decode_digit (suc (suc (suc (suc (suc (suc (suc (suc zero)))))))) rest digits h = refl
decode_digit (suc (suc (suc (suc (suc (suc (suc (suc (suc zero))))))))) rest digits h = refl
decode_digit (suc (suc (suc (suc (suc (suc (suc (suc (suc (suc n)))))))))) rest digits h =
    absurd (omega arith)

decode-ones : (k : ℕ) (digits : List ℕ) → k < 8 → decode (ones k) digits 0 0 ≡ ok digits
unfolding decode position huffman_codes check_padding
decode-ones zero digits h = refl
decode-ones (suc zero) digits h = refl
decode-ones (suc (suc zero)) digits h = refl
decode-ones (suc (suc (suc zero))) digits h = refl
decode-ones (suc (suc (suc (suc zero)))) digits h = refl
decode-ones (suc (suc (suc (suc (suc zero))))) digits h = refl
decode-ones (suc (suc (suc (suc (suc (suc zero)))))) digits h = refl
decode-ones (suc (suc (suc (suc (suc (suc (suc zero))))))) digits h = refl
decode-ones (suc (suc (suc (suc (suc (suc (suc (suc k)))))))) digits h = absurd (omega arith)

decode_digits :
    (ds digits : List ℕ) (k : ℕ)
    → All IsDigit ds
    → k < 8
    → decode (code_bits ds ++ ones k) digits 0 0 ≡ ok (digits ++ map (λ d. b'0' + d) ds)
decode_digits [] digits k h l = decode-ones k digits l ∙ ap ok (sym (append-nil digits))
decode_digits (d ∷ ds) digits k (h, hs) l =
    ap (λ bs. decode bs digits 0 0) (append_assoc (digit_bits d) (code_bits ds) (ones k))
    ∙ decode_digit d (code_bits ds ++ ones k) digits h
    ∙ decode_digits ds (digits ++ (b'0' + d) ∷ []) k hs l
    ∙ ap ok (append_assoc digits ((b'0' + d) ∷ []) (map (λ e. b'0' + e) ds))

-- If the bits of some bytes are the Huffman codes of decimal digits with fewer than eight ones
-- behind them, `huffman_digits` returns those digits.
pub huffman_digits_lem :
    (coded ds : List ℕ) (k : ℕ)
    → All IsDigit ds
    → k < 8
    → bits coded ≡ code_bits ds ++ ones k
    → huffman_digits coded ≡ ok (map (λ d. b'0' + d) ds)
unfolding huffman_digits
huffman_digits_lem coded ds k h l e = ap (λ bs. decode bs [] 0 0) e ∙ decode_digits ds [] k h l
