-- ===== src/Url.antt =====
-- What the program uses of packages net/url and path/filepath, as a parameter.
use oget.Prelude.{Option}
use oget.Prelude.Text.{Bytes}

-- A parsed URL; `query k` is u.Query().Get(k), empty where the key is missing, and `user` the user
-- name, and the password if there is one.
pub record Url : Type 0 where
  pub scheme : Bytes
  pub host : Bytes
  pub path : Bytes
  pub query : Bytes → Bytes
  pub user : Option (Bytes × Option Bytes)

pub record Library : Type 0 where
  -- url.Parse, `none` where it returns an error
  pub parse : Bytes → Option Url
  -- filepath.Join of two elements, filepath.Dir, filepath.Base
  pub join : Bytes → Bytes → Bytes
  pub dir : Bytes → Bytes
  pub base : Bytes → Bytes
