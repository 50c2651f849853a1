-- ===== src/Token/Keys.antt =====
-- When two keys of the token store are the same, and which keys a prefix takes.
use fbapy.Base.{ℕ, ◌≡◌, false, ◌&&◌, ◌==◌, ◌∙◌}
use fbapy.Base.Text.{Text, text_eq, text_eq-append, str, starts_with, starts_with-append_both}
use fbapy.Base.Numerals.{str-field, str-prefix, str-ne-field}
use fbapy.Token.{user_key, session_key}

pub session_key-eq :
    (p : Text) (u v : ℕ) (s t : Text)
    → text_eq (session_key p u s) (session_key p v t) ≡ (u == v && text_eq s t)
session_key-eq p u v s t = text_eq-append p _ _ ∙ str-field u v s t

pub user_key-session_key :
    (p : Text) (u v : ℕ) (t : Text)
    → starts_with (user_key p u) (session_key p v t) ≡ starts_with (str u) (str v)
user_key-session_key p u v t = starts_with-append_both p _ _ ∙ str-prefix u v t

pub user_key-ne :
    (p : Text) (u v : ℕ) (t : Text) → text_eq (user_key p u) (session_key p v t) ≡ false
user_key-ne p u v t = text_eq-append p _ _ ∙ str-ne-field u v t
