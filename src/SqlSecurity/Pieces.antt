-- ===== src/SqlSecurity/Pieces.antt =====
-- src/utils/security/sqlSecurityValidator.ts: a query as the pieces that Db2 for i reads, its text, and
-- what the scan leaves of each piece.
pub mod Loops
pub mod Whole
use mcp_server_db2i.Prelude.{
  ℕ, zero, suc, Bool, true, false, not, ◌&&◌, ◌||◌, Option, none, some, List, [], ◌∷◌, ◌++◌, ◌==◌,
  if◌then◌else◌, any,
}
use mcp_server_db2i.SqlSecurity.{
  Unterminated, string, identifier, comment, ScanText, Identifiers, unquote, mask,
  is_comment_line_end, starts, add, stop, placed, plain,
}

-- The inside of a comment, with the comments in it.
pub data Inside : Type 0 where
  nothing : Inside
  letter : ℕ → Inside → Inside
  nested : Inside → Inside → Inside

pub data Piece : Type 0 where
  code : ℕ → Piece
  line : List ℕ → ℕ → Piece
  block : Inside → Piece
  literal : List ℕ → Piece
  delimited : List ℕ → Piece

-- How a query ends; all but the first two leave something open, a comment at any depth.
pub data End : Type 0 where
  ended : End
  last_line : List ℕ → End
  open_string : List ℕ → End
  open_identifier : List ℕ → End
  open_comment : Inside → List Inside → End

-- The texts, each before what follows it.
unfoldable pub put_inside : Inside → List ℕ → List ℕ
put_inside nothing s = s
put_inside (letter c i) s = c ∷ put_inside i s
put_inside (nested i j) s = b'/' ∷ b'*' ∷ put_inside i (b'*' ∷ b'/' ∷ put_inside j s)

unfoldable pub put_doubled : ℕ → List ℕ → List ℕ → List ℕ
put_doubled q [] s = s
put_doubled q (c ∷ body) s =
    let rest = put_doubled q body s in if c == q then q ∷ q ∷ rest else c ∷ rest

abbrev pub put_piece : Piece → List ℕ → List ℕ
put_piece (code c) s = c ∷ s
put_piece (line body e) s = b'-' ∷ b'-' ∷ (body ++ e ∷ s)
put_piece (block i) s = b'/' ∷ b'*' ∷ put_inside i (b'*' ∷ b'/' ∷ s)
put_piece (literal body) s = b'\'' ∷ put_doubled b'\'' body (b'\'' ∷ s)
put_piece (delimited body) s = b'"' ∷ put_doubled b'"' body (b'"' ∷ s)

unfoldable pub put_open : List Inside → List ℕ
unfolding put_inside
put_open [] = []
put_open (i ∷ is) = b'/' ∷ b'*' ∷ put_inside i (put_open is)

abbrev pub put_end : End → List ℕ
put_end ended = []
put_end (last_line body) = b'-' ∷ b'-' ∷ body
put_end (open_string body) = b'\'' ∷ put_doubled b'\'' body []
put_end (open_identifier body) = b'"' ∷ put_doubled b'"' body []
put_end (open_comment i is) = put_open (i ∷ is)

unfoldable pub put : List Piece → End → List ℕ
unfolding put_inside put_doubled put_open
put [] e = put_end e
put (p ∷ ps) e = put_piece p (put ps e)

-- Is each piece read as itself, before what follows it?
unfoldable pub fits_inside : Inside → List ℕ → Bool
unfolding put_inside
fits_inside nothing s = true
fits_inside (letter c i) s =
    let t = put_inside i s in
    not (c == b'/' && starts b'*' t) && (not (c == b'*' && starts b'/' t) && fits_inside i s)
fits_inside (nested i j) s = fits_inside i (b'*' ∷ b'/' ∷ put_inside j s) && fits_inside j s

abbrev pub fits_piece : Piece → List ℕ → Bool
fits_piece (code c) s =
    not (c == b'-' && starts b'-' s)
    && (not (c == b'/' && starts b'*' s) && (not (c == b'\'') && not (c == b'"')))
fits_piece (line body e) s = not (any is_comment_line_end body) && is_comment_line_end e
fits_piece (block i) s = fits_inside i (b'*' ∷ b'/' ∷ s)
fits_piece (literal body) s = not (starts b'\'' s)
fits_piece (delimited body) s = not (starts b'"' s)

unfoldable pub fits_open : List Inside → Bool
unfolding put_open fits_inside
fits_open [] = true
fits_open (i ∷ is) = fits_inside i (put_open is) && fits_open is

abbrev pub fits_end : End → Bool
fits_end ended = true
fits_end (last_line body) = not (any is_comment_line_end body)
fits_end (open_string body) = true
fits_end (open_identifier body) = true
fits_end (open_comment i is) = fits_open (i ∷ is)

unfoldable pub fits : List Piece → End → Bool
unfolding put fits_open
fits [] e = fits_end e
fits (p ∷ ps) e = fits_piece p (put ps e) && fits ps e

module _ (is_db2_separator : ℕ → Bool) (ids : Identifiers) where
  -- What the scan leaves: a space for a comment or a literal, the name for a delimited identifier.
  abbrev pub piece_text : Piece → List ℕ
  piece_text (code c) = plain is_db2_separator c ∷ []
  piece_text (line body e) = 32 ∷ plain is_db2_separator e ∷ []
  piece_text (block i) = 32 ∷ []
  piece_text (literal body) = 32 ∷ []
  piece_text (delimited body) = placed ids body

  abbrev pub end_scan : End → ScanText
  end_scan ended = stop none
  end_scan (last_line body) = add (32 ∷ []) (stop none)
  end_scan (open_string body) = stop (some string)
  end_scan (open_identifier body) = stop (some identifier)
  end_scan (open_comment i is) = stop (some comment)

  unfoldable pub pieces_scan : List Piece → End → ScanText
  pieces_scan [] e = end_scan e
  pieces_scan (p ∷ ps) e = add (piece_text p) (pieces_scan ps e)
