-- ===== src/SqlSecurity/Pieces/Whole.antt =====
-- src/utils/security/sqlSecurityValidator.ts: the scan of a whole query given by its pieces.
use mcp_server_db2i.Prelude.{ℕ, Bool, true, List, [], ◌∷◌, ◌≡◌, ◌∙◌, refl, ap, arith}
use mcp_server_db2i.SqlSecurity.{Identifiers, add, normalize_for_scan}
use mcp_server_db2i.SqlSecurity.Automaton.{in_code, read, plain-read}
use mcp_server_db2i.SqlSecurity.Reference.{normalize_for_scan-read}
use mcp_server_db2i.SqlSecurity.Pieces.{
  Piece, code, line, block, literal, delimited, End, ended, last_line, open_string, open_identifier,
  open_comment, put_open, put_piece, put_end, put, fits_piece, fits_end, fits, piece_text, end_scan,
  pieces_scan,
}
use mcp_server_db2i.SqlSecurity.Pieces.Loops.{
  line-read, last_line-read, literal-read, open_string-read, delimited-read, open_identifier-read,
  inside-read, open_comment-read,
}

module _ (is_db2_separator : ℕ → Bool) (ids : Identifiers) where
  piece-read :
      (p : Piece) (s : List ℕ)
      → fits_piece p s ≡ true
      → read is_db2_separator ids in_code (put_piece p s)
        ≡ add (piece_text is_db2_separator ids p) (read is_db2_separator ids in_code s)
  unfolding read
  piece-read (code c) s h =
      plain-read is_db2_separator ids c s (ground (arith, h)) (ground (arith, h))
        (ground (arith, h)) (ground (arith, h))
  piece-read (line body e) s h =
      ap (add (32 ∷ []))
        (line-read is_db2_separator ids body e s (ground (arith, h)) (ground (arith, h)))
  piece-read (block i) s h = inside-read is_db2_separator ids 0 i (b'*' ∷ b'/' ∷ s) h
  piece-read (literal body) s h = literal-read is_db2_separator ids body s (ground (arith, h))
  piece-read (delimited body) s h = delimited-read is_db2_separator ids body s (ground (arith, h))

  end-read :
      (e : End)
      → fits_end e ≡ true
      → read is_db2_separator ids in_code (put_end e) ≡ end_scan is_db2_separator ids e
  unfolding read put_open
  end-read ended h = refl
  end-read (last_line body) h =
      ap (add (32 ∷ [])) (last_line-read is_db2_separator ids body (ground (arith, h)))
  end-read (open_string body) h = open_string-read is_db2_separator ids body
  end-read (open_identifier body) h = open_identifier-read is_db2_separator ids body
  end-read (open_comment i is) h = open_comment-read is_db2_separator ids 0 i is h

  put-read :
      (ps : List Piece) (e : End)
      → fits ps e ≡ true
      → read is_db2_separator ids in_code (put ps e) ≡ pieces_scan is_db2_separator ids ps e
  unfolding put fits pieces_scan
  put-read [] e h = end-read e h
  put-read (p ∷ ps) e h =
      piece-read p (put ps e) (ground (arith, h))
      ∙ ap (add (piece_text is_db2_separator ids p)) (put-read ps e (ground (arith, h)))

  -- For a query put together from pieces that do not run into each other, the scan leaves a character
  -- of the code as it is or as a space, a space for each comment, nested comments included, and for
  -- each literal, and the name or the placeholder for each delimited identifier, whatever quotes,
  -- comment signs and doubled quotes stand inside; and a query that ends inside a string, a
  -- delimited identifier or a comment at any depth is reported as such, and no other.
  pub normalize_for_scan-put :
      (ps : List Piece) (e : End)
      → fits ps e ≡ true
      → normalize_for_scan is_db2_separator (put ps e) ids ≡ pieces_scan is_db2_separator ids ps e
  normalize_for_scan-put ps e h =
      normalize_for_scan-read is_db2_separator (put ps e) ids ∙ put-read ps e h
