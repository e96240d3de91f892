-- ===== src/UcxApi/Commands/Power.antt =====
-- The functions of ucx_api/generated/u_cx_power.c.
use ucxclient.Prelude.{codes, [], ◌∷◌}
use ucxclient.Prelude.Int.{ℤ}
use ucxclient.AtClient.Send.{digit}
use ucxclient.UcxApi.Call.{ApiCall, exec_cmd, get_values}

unfoldable power_deep_sleep_with_gpio_wakeup : ApiCall
power_deep_sleep_with_gpio_wakeup = exec_cmd (codes "AT+UPMDS") []

unfoldable power_deep_sleep : ℤ → ApiCall
power_deep_sleep wakeup_mode = exec_cmd (codes "AT+UPMDS=") (digit wakeup_mode ∷ [])

unfoldable power_set_power_save_level : ℤ → ApiCall
power_set_power_save_level level = exec_cmd (codes "AT+UPMPSL=") (digit level ∷ [])

unfoldable power_get_power_save_level : ApiCall
power_get_power_save_level = get_values (codes "AT+UPMPSL?") [] (codes "+UPMPSL:") (codes "d")

unfoldable power_set_power_save_timeout : ℤ → ApiCall
power_set_power_save_timeout timeout_ms = exec_cmd (codes "AT+UPMPSTO=") (digit timeout_ms ∷ [])
