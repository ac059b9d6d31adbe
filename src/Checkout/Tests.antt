-- ===== src/Checkout/Tests.antt =====
-- A checkout without a window.
use corpershub_application.Base.{refl, none, some, false, ◌≡◌}
use corpershub_application.Checkout.{
  HostedCheckout, Browser, defines, launched, launch_hosted_checkout,
  is_flutterwave_inline_checkout, resolve_hosted_checkout_url,
}

abbrev hosted : HostedCheckout
hosted = record {
  authorization_url = none;
  checkout_url = some "https://checkout.example/1";
  redirect_url = none;
  checkout_mode = none;
  flutterwave = none;
}

abbrev fresh : Browser
fresh = record { has_provider = false; script_promised = false; opened = none; address = none }

hosted_test :
    launch_hosted_checkout defines (some hosted) fresh
    ≡ (launched, record fresh { address = some "https://checkout.example/1" })
unfolding launch_hosted_checkout is_flutterwave_inline_checkout resolve_hosted_checkout_url
hosted_test = refl
