-- ===== src/Dns/Validate/Accepts.antt =====
-- The responses that `check_response` accepts.
use dog.Prelude.{◌≡◌, ◌↔◌, refl, ap, Option, none, some, true, List, [], ◌∷◌, arith}
use dog.Prelude.{==→eq, Bool-cases, inl, inr}
use dog.Dns.Strings.Compare.{lower_case, labels_eq_ignore_ascii_case_iff}
use dog.Dns.Records.Types.{type_number}
use dog.Dns.Flags.{ErrorCode}
use dog.Dns.Message.{QClass, internet, chaosnet, hesiod, other, Query, Request, Response}
use dog.Dns.Validate.{qclass_eq, same_question, is_some, check_question, check_response}

-- The same question: the same name in lower case, the same type number, and the same class.
abbrev pub SameQuestion : Query → Query → Type 0
SameQuestion asked repeated =
    (lower_case asked.qname.segments ≡ lower_case repeated.qname.segments)
    × (type_number asked.qtype ≡ type_number repeated.qtype)
    × (asked.qclass ≡ repeated.qclass)

-- The first question is the one that was asked, or there is no question but an error code.
abbrev pub Answers : Query → Option ErrorCode → List Query → Type 0
Answers asked error_code (query ∷ rest) = SameQuestion asked query
Answers asked error_code [] = (code : ErrorCode) × (error_code ≡ some code)

qclass_eq_iff : (c d : QClass) → (qclass_eq c d ≡ true) ↔ (c ≡ d)
unfolding qclass_eq
qclass_eq_iff internet internet = ((λ h. refl), (λ e. refl))
qclass_eq_iff internet chaosnet = ((λ h. cc), (λ e. cc))
qclass_eq_iff internet hesiod = ((λ h. cc), (λ e. cc))
qclass_eq_iff internet (other n) = ((λ h. cc), (λ e. cc))
qclass_eq_iff chaosnet internet = ((λ h. cc), (λ e. cc))
qclass_eq_iff chaosnet chaosnet = ((λ h. refl), (λ e. refl))
qclass_eq_iff chaosnet hesiod = ((λ h. cc), (λ e. cc))
qclass_eq_iff chaosnet (other n) = ((λ h. cc), (λ e. cc))
qclass_eq_iff hesiod internet = ((λ h. cc), (λ e. cc))
qclass_eq_iff hesiod chaosnet = ((λ h. cc), (λ e. cc))
qclass_eq_iff hesiod hesiod = ((λ h. refl), (λ e. refl))
qclass_eq_iff hesiod (other n) = ((λ h. cc), (λ e. cc))
qclass_eq_iff (other m) internet = ((λ h. cc), (λ e. cc))
qclass_eq_iff (other m) chaosnet = ((λ h. cc), (λ e. cc))
qclass_eq_iff (other m) hesiod = ((λ h. cc), (λ e. cc))
qclass_eq_iff (other m) (other n) =
    ((λ h. ap other (==→eq m n h)), (λ e. let same : m ≡ n = cc in ground arith))

same_question_iff :
    (asked repeated : Query) → (same_question asked repeated ≡ true) ↔ SameQuestion asked repeated
unfolding same_question
same_question_iff asked repeated =
    let names = labels_eq_ignore_ascii_case_iff asked.qname repeated.qname in
    let classes = qclass_eq_iff asked.qclass repeated.qclass in
    (
      λ h. (names.0 (ground arith), ground arith, classes.0 (ground arith)),
      λ (n, t, c). let name = names.1 n in let class = classes.1 c in ground arith,
    )

check_question_iff :
    (asked : Query) (error_code : Option ErrorCode) (queries : List Query)
    → (check_question asked error_code queries ≡ none) ↔ Answers asked error_code queries
unfolding check_question is_some
check_question_iff asked none [] = ((λ h. cc), (λ (code, e). cc))
check_question_iff asked (some code) [] = ((λ h. (code, refl)), (λ e. refl))
check_question_iff asked error_code (query ∷ rest) =
    let same = same_question_iff asked query in
    (
      λ h. elim (Bool-cases (same_question asked query)) [
        | inl repeated ↦ same.0 repeated
        | inr differs ↦ absurd (ground arith)
      ],
      λ a. rw (same.1 a) refl,
    )

-- `check_response` accepts a response exactly when it has the transaction ID of the request and
-- is marked as a response, and either its first question has the same name in lower case, type
-- number and class as the one asked, or it has no question but an error code.
pub check_response_iff :
    (request : Request) (response : Response)
    → (check_response request response ≡ none) ↔ (
        (response.transaction_id ≡ request.transaction_id)
        × (response.flags.response ≡ true)
        × Answers request.query response.flags.error_code response.queries)
unfolding check_response
check_response_iff request response =
    let question = check_question_iff request.query response.flags.error_code response.queries in
    (
      λ h. (ground arith, ground arith, question.0 (ground arith)),
      λ (same, is_response, answers). let accepted = question.1 answers in ground arith,
    )
