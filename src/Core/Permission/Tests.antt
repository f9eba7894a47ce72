-- ===== src/Core/Permission/Tests.antt =====
-- crates/jet-core/src/authz.rs: the name of a permission, read back.
use jetrun.Prelude.{◌≡◌, refl, codes, bytes_eq, ok}
use jetrun.Core.Permission.{as_str, from_str, pipeline_run, secret_write, find}
use jetrun.Core.Permission.Names.{from_str-as_str, as_str-from_str}

from_str-as_str_example : from_str (codes "pipeline.run") ≡ ok pipeline_run
unfolding as_str
from_str-as_str_example = from_str-as_str pipeline_run

parsed : from_str (codes "secret.write") ≡ ok secret_write
unfolding from_str find as_str bytes_eq
parsed = refl

as_str-from_str_example : as_str secret_write ≡ codes "secret.write"
as_str-from_str_example = as_str-from_str (codes "secret.write") secret_write parsed
