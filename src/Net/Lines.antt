-- ===== src/Net/Lines.antt =====
-- Lines on a socket (`read_message` of src/net.c).
use mini_coin_slovak.Base.{
  ℕ, zero, suc, ◌<◌, ◌≤◌, ◌≡◌, refl, ap, ◌∙◌, false, ◌||◌, Option, none, some, [], ◌∷◌, ◌++◌, arith,
  length, ◌==◌, All, Bool-cases, inl, inr, subst,
}
use mini_coin_slovak.CLib.{Bytes}
use mini_coin_slovak.Net.{read_line, read_message, cons_line, c_string, as_string}

-- Neither a newline nor a NUL byte.
abbrev pub IsLine : Bytes → Type 0
IsLine = All (λ c. (c == b'\n' || c == 0) ≡ false)

read_line-line :
    (line rest : Bytes) (room : ℕ)
    → IsLine line
    → length line < room
    → read_line room (line ++ (b'\n' ∷ rest)) ≡ some (line, rest)
unfolding read_line
read_line-line line rest zero h fits = absurd (omega arith)
read_line-line [] rest (suc room) h fits = refl
read_line-line (c ∷ line) rest (suc room) h fits =
    let other : (c == b'\n') ≡ false = ground arith in
    rw (read_line, other) (ap (cons_line c) (read_line-line line rest room h.1 (omega arith)))

c_string-line : (line : Bytes) → IsLine line → c_string line ≡ line
c_string-line [] h = refl
c_string-line (c ∷ line) h = ground (arith, c_string-line line h.1)

-- Without a newline in its first `room` bytes a line is cut there.
read_line-cuts :
    (line rest : Bytes) (room : ℕ)
    → IsLine line
    → length line ≡ room
    → read_line room (line ++ rest) ≡ some (line, rest)
unfolding read_line
read_line-cuts [] rest room h e = ground arith
read_line-cuts (c ∷ line) rest zero h e = absurd (omega arith)
read_line-cuts (c ∷ line) rest (suc room) h e =
    let other : (c == b'\n') ≡ false = ground arith in
    rw (read_line, other) (ap (cons_line c) (read_line-cuts line rest room h.1 (omega arith)))

-- A line without newlines and NUL bytes that is shorter than 1048575 bytes is read as it is, and what
-- follows its newline stays on the socket.
pub read_message-line :
    (line rest : Bytes)
    → IsLine line
    → length line < 1048575
    → read_message (line ++ (b'\n' ∷ rest)) ≡ some (line, rest)
unfolding read_message
read_message-line line rest h fits =
    ap as_string (read_line-line line rest 1048575 h fits)
    ∙ ap (λ s. some (s, rest)) (c_string-line line h)

-- Of 1048575 or more bytes without newlines and NUL bytes the first 1048575 are taken for a line, and
-- the others stay on the socket, whatever they are.
pub read_message-cuts :
    (line rest : Bytes)
    → IsLine line
    → length line ≡ 1048575
    → read_message (line ++ rest) ≡ some (line, rest)
unfolding read_message
read_message-cuts line rest h e =
    ap as_string (read_line-cuts line rest 1048575 h e)
    ∙ ap (λ s. some (s, rest)) (c_string-line line h)

-- If there is a line, no more than `n` bytes are left on the socket.
abbrev pub LeavesAtMost : ℕ → Option (Bytes × Bytes) → Type 0
LeavesAtMost n none = Unit
LeavesAtMost n (some (line, rest)) = length rest ≤ n

cons_line-LeavesAtMost :
    (n c : ℕ) (r : Option (Bytes × Bytes)) → LeavesAtMost n r → LeavesAtMost n (cons_line c r)
cons_line-LeavesAtMost n c none h = tt
cons_line-LeavesAtMost n c (some (line, rest)) h = h

as_string-LeavesAtMost :
    (n : ℕ) (r : Option (Bytes × Bytes)) → LeavesAtMost n r → LeavesAtMost n (as_string r)
as_string-LeavesAtMost n none h = tt
as_string-LeavesAtMost n (some (line, rest)) h = h

more : (n m : ℕ) (r : Option (Bytes × Bytes)) → n ≤ m → LeavesAtMost n r → LeavesAtMost m r
more n m none le h = tt
more n m (some (line, rest)) le h = omega arith

read_line-LeavesAtMost :
    (room : ℕ) (socket : Bytes) → LeavesAtMost (length socket) (read_line room socket)
unfolding read_line
read_line-LeavesAtMost zero socket = omega arith
read_line-LeavesAtMost (suc room) [] = tt
read_line-LeavesAtMost (suc room) (c ∷ socket) = elim (Bool-cases (c == b'\n')) [
  | inl ends ↦ rw (read_line, ends) (omega arith)
  | inr other ↦
      rw (read_line, other)
        (cons_line-LeavesAtMost (suc (length socket)) c (read_line room socket) (
          more (length socket) (suc (length socket)) (read_line room socket) (omega arith)
            (read_line-LeavesAtMost room socket)))
]

-- The newline is gone too.
read_line-cons-LeavesAtMost :
    (room c : ℕ) (socket : Bytes) → LeavesAtMost (length socket) (read_line (suc room) (c ∷ socket))
unfolding read_line
read_line-cons-LeavesAtMost room c socket = elim (Bool-cases (c == b'\n')) [
  | inl ends ↦ rw (read_line, ends) (omega arith)
  | inr other ↦
      rw (read_line, other)
        (cons_line-LeavesAtMost (length socket) c (read_line room socket)
          (read_line-LeavesAtMost room socket))
]

read_message-LeavesAtMost :
    (c : ℕ) (socket : Bytes) → LeavesAtMost (length socket) (read_message (c ∷ socket))
unfolding read_message
read_message-LeavesAtMost c socket =
    as_string-LeavesAtMost (length socket) (read_line 1048575 (c ∷ socket))
      (read_line-cons-LeavesAtMost 1048574 c socket)

-- A message takes at least one byte from the socket.
pub read_message-lt :
    (socket line rest : Bytes)
    → read_message socket ≡ some (line, rest)
    → length rest < length socket
unfolding read_message read_line
read_message-lt [] line rest e = absurd (ground arith)
read_message-lt (c ∷ socket) line rest e =
    let le = subst (LeavesAtMost (length socket)) e (read_message-LeavesAtMost c socket) in
    omega arith
