-- ===== src/Parser/Lifetime.antt =====
-- configloader/configfile_deserialize.c and configfile.c together: what reading a configuration
-- leaves behind.
use deadline_knapp_verparsed.Base.{Option, none, some, Bytes, ◌≡◌}
use deadline_knapp_verparsed.Runtime.{World, bind}
use deadline_knapp_verparsed.Runtime.Ensures.{Steady, Ensures, holds, Ensures-bind}
use deadline_knapp_verparsed.Configfile.{Block, config_block_free}
use deadline_knapp_verparsed.Configfile.BlockMemory.{config_block_free-Ensures}
use deadline_knapp_verparsed.Parser.{config_deserialize}
use deadline_knapp_verparsed.Parser.Correct.{Deserializes, config_deserialize-Deserializes}

-- A configuration that is read and then freed leaves as many allocations as before, for every stream
-- and every allocator, also where the reading fails half way, unless the run faults after a refused
-- request.
pub config_deserialize-config_block_free :
    (s : Bytes) (w : World)
    → Ensures w
        (λ _ w'. w'.live ≡ w.live)
        (bind (config_deserialize (some s) w) λ r w'. config_block_free r w')
unfolding config_block_free
config_deserialize-config_block_free s w = Ensures-bind (config_deserialize-Deserializes s w) cases
  where
    cases :
        (r : Option Block) (w' : World)
        → Steady w w'
        → Deserializes w w.live s r w'
        → Ensures w (λ _ w''. w''.live ≡ w.live) (config_block_free r w')
    cases none w' st h = holds st h.0
    cases (some b) w' st h = config_block_free-Ensures b w.live st h.0
