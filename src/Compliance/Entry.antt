-- ===== src/Compliance/Entry.antt =====
-- src/omnicursor/compliance.py: an entry of the registry's lists.
use omnicursor.Prelude.{List}
use omnicursor.Text.{Text}

-- a check passes where one of its keywords occurs in the response
pub record Check : Type 0 where
  pub name : Text
  pub keywords : List Text
