-- ===== src/Base/Unicode.antt =====
-- The methods of QString whose results depend on the Unicode tables and on codecs. They are no part
-- of the repository, so that the modules that call them take them as a parameter.
use tf.Base.Text.{Text}

pub record Unicode : Type 0 where
  pub to_lower : Text → Text
  pub to_latin1 : Text → Text
  pub to_utf8 : Text → Text
  pub trimmed : Text → Text
  pub simplified : Text → Text
