-- ===== src/Lexer/Skipped.antt =====
-- What stands at the front of a stream behind `skip_ws_and_comments`.
use deadline_knapp_verparsed.Base.{ℕ, ◌||◌, false, [], ◌∷◌, Bytes, ◌≡◌, arith, ◌==◌}
use deadline_knapp_verparsed.Lexer.{isspace, is_delimiter, skip_ws_and_comments, skip_comment}

-- A stream that is empty, or whose first byte is neither white space nor the start of a comment.
abbrev pub IsSkipped : Bytes → Type 0
IsSkipped [] = Unit
IsSkipped (c ∷ s) = (isspace c ≡ false) × ((c == b'#') ≡ false)

mutual
  unfolding skip_ws_and_comments

  pub skip_ws_and_comments-IsSkipped : (s : Bytes) → IsSkipped (skip_ws_and_comments s)
  skip_ws_and_comments-IsSkipped [] = tt
  skip_ws_and_comments-IsSkipped (c ∷ s) =
      ground (arith, skip_ws_and_comments-IsSkipped s, skip_comment-IsSkipped s)

  skip_comment-IsSkipped : (s : Bytes) → IsSkipped (skip_comment s)
  skip_comment-IsSkipped [] = tt
  skip_comment-IsSkipped (c ∷ s) =
      ground (arith, skip_ws_and_comments-IsSkipped s, skip_comment-IsSkipped s)

pub is_delimiter-false :
    (c : ℕ)
    → (c == b'{') ≡ false
    → (c == b'}') ≡ false
    → (c == b';') ≡ false
    → (c == b'"' || c == b'\'') ≡ false
    → (c == b'#') ≡ false
    → is_delimiter c ≡ false
unfolding is_delimiter
is_delimiter-false c h₁ h₂ h₃ h₄ h₅ = ground arith
