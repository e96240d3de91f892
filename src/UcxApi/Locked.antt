-- ===== src/UcxApi/Locked.antt =====
-- What uCxWifiStationGetIpConfig of ucx_api/generated/u_cx_wifi.c does with a response.
use ucxclient.Prelude.{
  ◌≡◌, refl, ap, subst, true, false, Option, none, some, List, [], ◌∷◌, ◌++◌, Bytes, codes,
  if_false,
}
use ucxclient.Prelude.Int.{ℤ, pos}
use ucxclient.Prelude.Decimal.{show_ℤ}
use ucxclient.AtUtil.ParamEnd.Split.{IsComplete}
use ucxclient.UrcQueue.Entries.{Entry}
use ucxclient.AtClient.State.{Client, Exec, ran, stuck, failed_assert, ◌>>=◌}
use ucxclient.AtClient.Uart.{Event}
use ucxclient.AtClient.Parse.Safe.{Returns, returned}
use ucxclient.AtClient.Rx.Receive.{Mode}
use ucxclient.AtClient.Rx.Frame.{Frame, frame}
use ucxclient.AtClient.Send.{send_param, send_params, send_cmd}
use ucxclient.AtClient.Command.{cmd_begin, cmd_get_rsp_param_line}
use ucxclient.AtClient.Command.Wait.{Late}
use ucxclient.AtClient.Command.Start.{begun, begun-Mode}
use ucxclient.AtClient.Command.Response.{Answered, answered, cmd_get_rsp_param_line-Answered}
use ucxclient.UcxApi.Call.{Setting, Answer, end_cmd}
use ucxclient.UcxApi.Variant.{variant_of, get_variant}
use ucxclient.UcxApi.Selection.{parse_variant-skipped}
use ucxclient.UcxApi.Commands.WifiStation.{wifi_station_get_ip_config}

abbrev client_of : Client → Exec (Option (Option Bytes × Client × List Event)) → Client
client_of d (ran (some (line, c, unread))) = c
client_of d m = d

frame_of :
    {k : Frame} {entries : List Entry} {line : Option Bytes} {c2 : Client} {unread : List Event}
    {m : Exec (Option (Option Bytes × Client × List Event))}
    → Returns (Answered k entries) m
    → m ≡ ran (some (line, c2, unread))
    → frame c2 ≡ k
frame_of {k} (returned _ (answered params c rest g f)) e =
    subst (λ d. frame d ≡ k) (ap (client_of c) e) f

-- What `get_variant` does with the response.
abbrev follow :
    ℤ → Setting → List Bytes → Option (Option Bytes × Client × List Event) → Exec (Option Answer)
follow junk t chunks none = ran none
follow junk t chunks (some (line, c2, rest)) =
    elim (variant_of (codes "-d") ((pos 0, codes "-d") ∷ (pos 1, codes "-diiiii") ∷ []) junk
      t.before line) [
        | none ↦ ran (
            some (record { chunks = chunks; result = pos 0; values = []; calls = []; client = c2 }))
        | some answer ↦ end_cmd chunks answer c2 t rest
      ]

abbrev ip_forms : List (ℤ × Bytes)
ip_forms = (pos 0, codes "-d") ∷ (pos 1, codes "-diiiii") ∷ []

follow-none :
    (junk : ℤ) (t : Setting) (chunks : List Bytes) (line : Option Bytes) (c2 : Client)
    (rest : List Event)
    → variant_of (codes "-d") ip_forms junk t.before line ≡ none
    → follow junk t chunks (some (line, c2, rest))
      ≡ ran
          (some (record { chunks = chunks; result = pos 0; values = []; calls = []; client = c2 }))
follow-none junk t chunks line c2 rest e = rw (follow, e) refl

-- Any response with two parameters or more, as the two forms of the response have but for the address
-- mode alone, makes `uCxWifiStationGetIpConfig` return 0, which stands for success, with nothing
-- stored, and leaves the command under way and the command mutex held.
pub wifi_station_get_ip_config_locks :
    (c : Client) (junk wlan_handle : ℤ) (t : Setting) (events : List Event) (entries : List Entry)
    (p rest : Bytes) (c2 : Client) (unread : List Event)
    → Mode c entries
    → c.cmd_mutex ≡ false
    → c.executing_cmd ≡ false
    → Late t.now c.cmd_timeout t.rsp_clock
    → IsComplete p
    → cmd_get_rsp_param_line (begun c t.now) (some (codes "+UWSIP:")) [] none t.rsp_clock events
      ≡ ran (some (some (p ++ b',' ∷ rest), c2, unread))
    → (wifi_station_get_ip_config junk wlan_handle c t events
        ≡ ran (
            some (record {
              chunks = codes "AT+UWSIP=" ∷ show_ℤ wlan_handle ∷ codes "\r" ∷ [];
              result = pos 0;
              values = [];
              calls = [];
              client = c2;
            })))
      × (c2.executing_cmd ≡ true)
      × (c2.cmd_mutex ≡ true)
unfolding wifi_station_get_ip_config get_variant cmd_begin variant_of send_cmd send_params
    send_param
wifi_station_get_ip_config_locks c junk wlan_handle t events entries p rest c2 unread mode free idle
      late h rsp =
    let f =
      frame_of
        (cmd_get_rsp_param_line-Answered (begun c t.now) entries (some (codes "+UWSIP:")) [] none
          t.rsp_clock events (begun-Mode t.now mode) late)
        rsp in
    let look : List Bytes × Client → Exec (Option Answer) = λ r.
      cmd_get_rsp_param_line r.1 (some (codes "+UWSIP:")) [] none t.rsp_clock events
      >>= follow junk t r.0 in
    let locked : Exec (Option Answer) = ran (
      some (record {
        chunks = codes "AT+UWSIP=" ∷ show_ℤ wlan_handle ∷ codes "\r" ∷ [];
        result = pos 0;
        values = [];
        calls = [];
        client = c2;
      })) in
    (
      if_false (λ x. (x >>= look) ≡ locked) stuck free
          (if_false (λ x. (x >>= look) ≡ locked) failed_assert idle
            (rw rsp (
              follow-none junk t _ (some (p ++ b',' ∷ rest)) c2 unread
                (parse_variant-skipped ip_forms junk t.before p rest h)))),
      ap (λ (k : Frame). k.executing_cmd) f,
      ap (λ (k : Frame). k.cmd_mutex) f,
    )
