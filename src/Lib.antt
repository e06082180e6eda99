-- ===== src/Lib.antt =====
-- Strom: the two web clients of a UPS monitoring system that is built on Network UPS Tools (NUT).
--
-- A Strom node (agent/) serves a dashboard for the UPSes that are plugged into it; a controller
-- (controller/) adopts nodes and shows the fleet. Both servers are written in Go and answer JSON;
-- the clients are a page of plain JavaScript (agent/internal/api/web/app.js) and a React
-- application (controller/web/src/). This development models the logic of the clients: the state
-- that they keep, what each event and each reply does to it, the requests that they send, and how
-- they put values on the page.
--
-- Dashboard is agent/internal/api/web/app.js:
--   Theme         initTheme, normalizeThemePreference, resolveTheme, handleSystemThemeChange,
--                 applyThemePreference; the storage of the browser is a function from keys
--   Menu          toggleProfileMenu, closeProfileMenu, focusSelectedThemeOption,
--                 handleMenuOptionNavigation and the menu's listeners, and closeMenus of about.js
--   Escape        escapeHTML, escapeAttribute, cssEscape
--   Markup        the HTML of renderUPSGrid, renderDetail, renderVariableGroups, renderCommands,
--                 renderWritable, renderVariableInput, renderEmptyDetail, statItem, detailMetric
--   Format        formatPercent, formatVoltage, formatDuration, formatBytes
--   Status        statusClass, accentClassForStatus
--   Store         the UPS part of `state`, renderUPSGrid, renderDetail, renderEmptyDetail,
--                 updateSettingsApplyButton, loadUPSDetail; Store/Race is about late replies
--   Live          updateLiveUPSData, updateDetailMetrics, refreshAll
--   Cards         the listeners of the grid's cards and of beforeunload
--   Stream        setHealthStreamStatus and the listeners of connectHealthStream
--   Settings      handleVariableInputChange; Settings/Loop has setWritableVariable and
--                 applyDirtyVariables, Settings/Requests what is asked for
--   Commands      runCommand, openConfirmModal, closeConfirmModal and their listeners
--   MetricDetail  openMetricDetailModal, closeMetricDetailModal, selectMetricDetailWindow,
--                 refreshMetricHistoryLong and the dialog's listeners
--   Metadata      openUPSMetadataModal, closeUPSMetadataModal, saveUPSMetadata and their tags
--   Variables     humanizeNUTIdentifier, variableGroupFor, renderVariableGroups
--   Chart         computeTimeTicks, buildTimeSeriesChart, the label stride, the hover's searches
--   MetricChart   renderMetricDetailChart and the hover over it; MetricChart/Texts has its labels
--   Sparkline     buildSparkline
--   Health        renderHealth, its trends and the clicks on its cards
--   RawJson       highlightJSON and the raw JSON dialog
--   Toast         showToast and the timer that hides the toast
--   About         about.js beside it: the dialogs about the node and the acknowledgments
-- Controller is controller/web/src/:
--   Format        lib/format.ts: statusToSeverity, commsStateToSeverity, the names of a node,
--                 humanizeError, formatCommsState, formatDuration, formatBytes
--   App/Theme     App.tsx: the theme's states and effects
--   App/Confirmation  requestConfirmation and closeConfirmation of App.tsx
--   App/Toasts    showToast of App.tsx and components/ToastSnackbar.tsx
--   LiveRefresh   hooks/useLiveRefresh.ts
--   NodeDialog    components/NodeDetailDialog.tsx: load, the effect on nodeId, the handlers;
--                 NodeDialog/Content is what the dialog shows
--   ConfigTab     the form of the labels in components/NodeDetailDialog.tsx
--   UpsDialog     components/UPSDetailDialog.tsx: load, the effect on the names, the handlers;
--                 toChartSeries of lib/format.ts; UpsDialog/Editor has the metadata editor and
--                 UpsDialog/Content what the dialog shows
--   Api           api.ts: requestJSON and the request of every endpoint; Api/Uri has the encodings of
--                 addresses, Api/Routes reads the addresses back
--   Fleet         pages/FleetPage.tsx: loading, counts and the dialogs that the address names
--   NodeCard      components/NodeCard.tsx
--   Alerts        pages/AlertsPage.tsx
--   SettingsPage  pages/SettingsPage.tsx
--   HeaderMenu    components/HeaderMenu.tsx
--   Summary       formatUPSMetrics, formatBatteryTrend of lib/format.ts, summarizeSeries of
--                 components/ChartCard.tsx
-- Store is the interface of the dashboard's parts: Live, Settings and Commands are functions on its
-- state, and so is Metadata, whose tags UpsDialog uses too. The controller's App/Theme is compared
-- with the dashboard's Theme, which uses the same storage, and its Format with the dashboard's Status
-- and Format. The pages of the controller build their requests by Api.
--
-- State is passed on explicitly. An `async` function is cut at each `await`: one function has what
-- runs before it and appends the request to `sent`, another one has what runs with the reply, so
-- that events and replies can come in any order. The answer of a confirmation, the replies and what
-- the browser says (system theme, hidden tab) are arguments. The loop of applyDirtyVariables is cut at
-- the await of each round.
-- Strings whose characters matter are lists of code points, of which only ASCII changes its case
-- and is white space; the others are opaque. Numbers of whole units (seconds, bytes, milliseconds,
-- counts) are natural numbers. Fractions are exact quotients where the source divides by powers of
-- two; in the charts, in the form of the alerts and in formatPercent and formatVoltage JavaScript's
-- numbers and `toFixed` are a parameter, and so are `localeCompare` and the dates of a chart's points.
--
-- Two loops run on fuel: computeTimeTicks on one more than the end, which is enough since each round
-- adds a positive interval, and formatBytes on the four units that are left, which is the source's
-- own bound. The readers of escaped texts and of highlighted JSON, which describe what a browser shows,
-- run on fuel for the characters that they read.
--
-- Not modelled: the Go servers, the lines of the charts' SVG, the formats of dates, the HTML of the
-- other views and the styles. React Router and the Snackbar of MUI are parameters. What a browser
-- does to an address that it is given (`.` and `..` as parts of a path) is left out. The bundle of the
-- controller's client is generated.
mod Prelude
pub mod Dashboard
pub mod Controller
