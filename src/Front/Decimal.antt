-- ===== src/Front/Decimal.antt =====
-- `std::to_string(int)`, for FrontendCPP/WateRMQ.cpp: the decimal digits of a number, the last one first.
use wate_rmq.Common.{ℕ, zero, suc, ◌+◌, ◌/◌, ◌%◌, List, [], ◌∷◌, ℤ, pos, negsuc, ltb, if◌then◌else◌}

-- The digits of `n` before `out`, for at most `rounds` digits and one more.
abbrev pub digits : ℕ → ℕ → List ℕ → List ℕ
digits zero n out = (48 + n % 10) ∷ out
digits (suc rounds) n out =
    let rest = digits rounds (n / 10) ((48 + n % 10) ∷ out) in
    if ltb n 10 then (48 + n) ∷ out else rest

-- An `int` has ten digits at most.
unfoldable pub to_string : ℤ → List ℕ
to_string (pos n) = digits 9 n []
to_string (negsuc n) = 45 ∷ digits 9 (suc n) []
