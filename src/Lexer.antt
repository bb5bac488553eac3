-- ===== src/Lexer.antt =====
-- impl/lnpl/lexer.py: the word tables, durations and the line tokenizer.
pub mod Words
pub mod Duration
pub mod Lines
